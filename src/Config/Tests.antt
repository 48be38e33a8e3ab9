-- ===== src/Config/Tests.antt =====
-- The theorems on the configuration at concrete options.
use intempt_python.Prelude.{false, none, [], ◌∷◌, All, ◌≡◌, refl}
use intempt_python.Config.Host.{
  split_host, parse_digits, parse_signed, parse_int, IsHost, split_host-IsHost,
}
use intempt_python.Config.Paths.{IsProjectPath, project_path-IsProjectPath}
use intempt_python.Config.Record.{ResolvedConfig, fixed_options, project_path}
use intempt_python.Config.Resolve.{
  resolve_config, required, resolve_source_id, check_scheme, check_seconds, float_of, check_count,
}
use intempt_python.Config.Batch.{resolve_batch}
use intempt_python.Config.Credentials.{api_key_credentials}
use intempt_python.Python.Encode.{base64, utf8}
use intempt_python.Python.Text.{
  strip, strip_left, strip_right, is_space, is_blank, partition, contains,
}
use intempt_python.Util.{assert_logger, missing_methods, has_method}
use intempt_python.Config.Resolve.Checked.{IsResolved, resolve_config-IsResolved}
use intempt_python.Config.Merge.{merge_config, apply_patch, unknown_options, refuse_fixed}
use intempt_python.Config.Merge.Merged.{IsPatched, merge_config-IsPatched}
use intempt_python.Config.Samples.{show, root_logger, config}
use intempt_python.Python.Float.{pos}
use intempt_python.Python.Result.{Ensures, ok}
use intempt_python.Python.Value.{
  int, str, dict, end, field, Options, has, get, get_or, truthy, str_of, decimal,
}

abbrev options : Options
options =
    ("org", str "acme")
    ∷ ("project", str "shop")
    ∷ ("api_key", str "pk.secret")
    ∷ ("source_id", int (pos 1234567890123456789))
    ∷ ("host", str "api.test:8443")
    ∷ ("batch", dict (field "size" (int (pos 5)) end))
    ∷ []

split_host-IsHost_example : Ensures IsHost (split_host (str " api.test:8443 "))
split_host-IsHost_example = split_host-IsHost (str " api.test:8443 ")

resolve_config-IsResolved_example : Ensures IsResolved (resolve_config show root_logger options)
unfolding get get_or
resolve_config-IsResolved_example =
    resolve_config-IsResolved show root_logger options (tt, (tt, tt))

-- A new host without a port, and a new path.
abbrev patch : Options
patch = ("host", str "eu.test") ∷ ("path", str "/v2") ∷ []

merge_config-IsPatched_example :
    Ensures
      (λ after.
        IsPatched show patch config after × All (λ name. has name patch ≡ false) fixed_options)
      (merge_config show config patch)
merge_config-IsPatched_example = merge_config-IsPatched show config patch

-- The old port does not survive the new host.
stale_port_is_cleared :
    merge_config show config patch
    ≡ ok (record config { host = "eu.test"; port = none; path = str "/v2" })
unfolding merge_config apply_patch unknown_options refuse_fixed has get split_host strip strip_left
    strip_right is_space is_blank partition
stale_port_is_cleared = refl

options_resolve : resolve_config show root_logger options ≡ ok config
unfolding resolve_config required resolve_source_id get get_or split_host strip strip_left
    strip_right is_space is_blank partition parse_digits parse_signed parse_int check_scheme
    check_seconds float_of check_count resolve_batch assert_logger missing_methods has_method truthy
    api_key_credentials contains str_of base64 utf8 decimal
options_resolve = refl

abbrev renamed : ResolvedConfig
renamed = record config { org = "acme/../other"; project = "a?b#c" }

project_path-IsProjectPath_example :
    IsProjectPath "acme/../other" "a?b#c"
      (str_of show renamed.path)
      "/track"
      (project_path show renamed "/track")
project_path-IsProjectPath_example = project_path-IsProjectPath show renamed "/track"
