-- ===== src/Config/Merge.antt =====
-- intempt/_config.py: `merge_config`.
pub mod Merged
use Prim.Native.String.{◌++◌}
use text.Mathlib.Text.{◌==◌}
use intempt_python.Prelude.{
  ℕ, Option, String, Bool, true, false, ◌||◌, List, [], ◌∷◌, if◌then◌else◌,
}
use intempt_python.Errors.{config_error}
use intempt_python.Config.Host.{split_host}
use intempt_python.Config.Record.{ResolvedConfig, fixed_options, field_names}
use intempt_python.Config.Resolve.{check_scheme, check_timeout}
use intempt_python.Python.Float.{Float}
use intempt_python.Python.Text.{precedes}
use intempt_python.Python.Value.{Value, Options, get, has}
use intempt_python.Python.Result.{Result, ok, raised, ◌>>=◌, ◌>>◌, raise_if}
use intempt_python.Util.{assert_logger, mem, join_comma}

unfoldable pub insert : String → List String → List String
insert name [] = name ∷ []
insert name (x ∷ xs) =
    let later = insert name xs in if precedes name x then name ∷ x ∷ xs else x ∷ later

unfoldable pub sorted : List String → List String
unfolding insert
sorted [] = []
sorted (x ∷ xs) = insert x (sorted xs)

-- `set(patch) - known - {"host"} - set(_FIXED)`
unfoldable pub unknown_options : Options → List String
unknown_options [] = []
unknown_options ((k, v) ∷ rest) =
    let others = unknown_options rest in
    if mem k field_names || (k == "host" || mem k fixed_options) then others else k ∷ others

abbrev refuse_unknown : List String → Result (Unit {0})
refuse_unknown [] = ok tt
refuse_unknown (name ∷ names) =
    raised (config_error ("set_config: unknown option(s): " ++ join_comma (sorted (name ∷ names))))

-- The loop over `_FIXED`.
unfoldable pub refuse_fixed : List String → Options → Result (Unit {0})
refuse_fixed [] patch = ok tt
refuse_fixed (name ∷ names) patch =
    raise_if (has name patch) (
      config_error (
        "set_config: \"" ++ name ++ "\" is fixed at construction because the connection "
        ++ "pool is built once. Pass it to Intempt() instead."))
    >> refuse_fixed names patch

-- `if name in patch:` with what is computed from the value and the field that is set.
abbrev pub patched :
    {A : Type 0}
    → String
    → Options
    → (Value → Result A)
    → (A → ResolvedConfig → ResolvedConfig)
    → ResolvedConfig
    → Result ResolvedConfig
patched name patch check set config =
    if has name patch then (check (get name patch) >>= λ a. ok (set a config)) else ok config

-- `logger` is stored as it was given.
abbrev pub checked_logger : Value → Result Value
checked_logger v = assert_logger v >> ok v

-- What an option sets.
abbrev pub set_host : String × Option ℕ → ResolvedConfig → ResolvedConfig
set_host h c = record c { host = h.0; port = h.1 }

abbrev pub set_scheme : String → ResolvedConfig → ResolvedConfig
set_scheme a c = record c { scheme = a }

abbrev pub set_timeout : Float → ResolvedConfig → ResolvedConfig
set_timeout a c = record c { timeout = a }

abbrev pub set_logger : Value → ResolvedConfig → ResolvedConfig
set_logger a c = record c { logger = a }

abbrev pub set_path : Value → ResolvedConfig → ResolvedConfig
set_path a c = record c { path = a }

abbrev pub set_debug : Value → ResolvedConfig → ResolvedConfig
set_debug a c = record c { debug = a }

abbrev pub set_max_request_events : Value → ResolvedConfig → ResolvedConfig
set_max_request_events a c = record c { max_request_events = a }

abbrev pub set_max_concurrent_requests : Value → ResolvedConfig → ResolvedConfig
set_max_concurrent_requests a c = record c { max_concurrent_requests = a }

module _ (show : Value → String) where
  -- The changes, in the order in which the values are checked.
  unfoldable pub apply_patch : Options → ResolvedConfig → Result ResolvedConfig
  apply_patch patch config = do
    c1 ← patched "host" patch split_host set_host config
    c2 ← patched "scheme" patch (check_scheme show) set_scheme c1
    c3 ← patched "timeout" patch check_timeout set_timeout c2
    c4 ← patched "logger" patch checked_logger set_logger c3
    c5 ← patched "path" patch ok set_path c4
    c6 ← patched "debug" patch ok set_debug c5
    c7 ← patched "max_request_events" patch ok set_max_request_events c6
    c8 ← patched "max_concurrent_requests" patch ok set_max_concurrent_requests c7
    ok c8

  unfoldable pub merge_config : ResolvedConfig → Options → Result ResolvedConfig
  unfolding apply_patch
  merge_config current patch = do
    refuse_unknown (unknown_options patch)
    refuse_fixed fixed_options patch
    apply_patch patch current
