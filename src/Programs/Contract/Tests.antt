-- ===== src/Programs/Contract/Tests.antt =====
-- scripts/e2e.py at concrete inputs.
use intempt_python.Prelude.{String, none, some, List, [], ◌∷◌, ◌≡◌, refl, Returns}
use intempt_python.Config.Samples.{root_logger}
use intempt_python.Transport.State.{Outcome, response}
use intempt_python.Python.Text.{strip, strip_left, strip_right, is_space, partition, contains}
use intempt_python.Python.Value.{null}
use intempt_python.Client.Samples.{outside}
use intempt_python.Programs.Process.{Environ, open_client}
use intempt_python.Programs.Contract.{lacks_credentials, script}
use intempt_python.Programs.Contract.Inputs.{
  contract_options, feed_fields, split_fields, hex_prefix,
}
use intempt_python.Programs.Contract.EnvFile.{
  Extends, load_env_file, load_lines, load_line, assign, strip_quotes, strip_quotes_left,
  strip_quotes_right,
}
use intempt_python.Programs.Contract.Ended.{Ended, script-Ended}

abbrev file : List String
file =
    "# credentials" ∷ "INTEMPT_E2E_ORG = 'acme'" ∷ "INTEMPT_E2E_ORG=other"
    ∷ "INTEMPT_E2E_API_KEY=\"pk.a=b\"" ∷ "not a setting" ∷ []

abbrev environ : Environ
environ = ("INTEMPT_E2E_PROJECT", "shop") ∷ []

abbrev loaded : Environ
loaded =
    ("INTEMPT_E2E_PROJECT", "shop")
    ∷ ("INTEMPT_E2E_ORG", "acme")
    ∷ ("INTEMPT_E2E_API_KEY", "pk.a=b")
    ∷ []

-- Quotes are taken off, and the first setting of a name wins.
file_is_loaded : load_env_file (some file) environ ≡ (2, loaded)
unfolding load_env_file load_lines load_line assign strip strip_left strip_right is_space partition
    contains strip_quotes strip_quotes_left strip_quotes_right
file_is_loaded = refl

fields_are_split :
    feed_fields (("INTEMPT_E2E_FEED_FIELDS", "id, title,,") ∷ []) ≡ "id" ∷ "title" ∷ []
unfolding feed_fields split_fields strip strip_left strip_right is_space
fields_are_split = refl

dashes_are_dropped : hex_prefix 12 "12345678-9abc-def0" ≡ "123456789abc"
unfolding hex_prefix
dashes_are_dropped = refl

abbrev answers : List Outcome
answers = response 200 "{}" none ∷ response 401 "" none ∷ []

script-Ended_example :
    Extends environ (load_env_file (some file) environ).1
    × Returns
        (λ d.
          let env = (load_env_file (some file) environ).1 in
          Ended outside root_logger null env answers
            (lacks_credentials outside env)
            (open_client outside.show root_logger (contract_options env))
            d)
        (script outside (some file) environ root_logger null answers)
script-Ended_example = script-Ended outside root_logger null (some file) environ answers
