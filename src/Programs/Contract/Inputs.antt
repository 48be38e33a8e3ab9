-- ===== src/Programs/Contract/Inputs.antt =====
-- scripts/e2e.py: what it reads of the environment.
use Prim.Native.Char.{code as code_point}
use Prim.Native.String.{◌++◌}
use Prim.Native.String.{[] as empty, ◌∷◌ as char_on}
use intempt_python.Prelude.{ℕ, zero, suc, String, true, List, [], ◌∷◌, if◌then◌else◌}
use intempt_python.Prelude.{◌++◌ as append, ◌==◌ as eq_ℕ}
use intempt_python.Python.Text.{is_nil, strip}
use intempt_python.Python.Value.{Value, null, str, batch_options, Options}
use intempt_python.Programs.Process.{Environ, getenv, text_or_empty, or_text}

-- `[field.strip() for field in text.split(",") if field.strip()]`, from the fields that are done and
-- the characters of the current one.
unfoldable pub split_fields : List String → String → String → List String
split_fields done current empty =
    append done (if is_nil (strip current) then [] else strip current ∷ [])
split_fields done current (char_on c s) =
    let next =
      split_fields (append done (if is_nil (strip current) then [] else strip current ∷ [])) empty
        s in
    let more = split_fields done (current ++ char_on c empty) s in
    if eq_ℕ (code_point c) 44 then next else more

unfoldable pub feed_fields : Environ → List String
unfolding split_fields
feed_fields env = split_fields [] empty (or_text "id" (getenv "INTEMPT_E2E_FEED_FIELDS" env))

-- `os.environ.get(name) or None`, of which only whether it is empty counts.
abbrev pub setting : String → Environ → String
setting name env = text_or_empty (getenv name env)

abbrev pub value_or_none : String → Value
value_or_none s = if is_nil s then null else str s

-- `uuid.uuid4().hex[:12]`, from the text of a `UUID`.
unfoldable pub hex_prefix : ℕ → String → String
hex_prefix zero s = empty
hex_prefix (suc n) empty = empty
hex_prefix (suc n) (char_on c s) =
    let dropped = hex_prefix (suc n) s in
    let kept = hex_prefix n s in if eq_ℕ (code_point c) 45 then dropped else char_on c kept

-- The arguments of the constructor that both clients of the script have.
unfoldable pub contract_options : Environ → Options
contract_options env =
    ("org", str (setting "INTEMPT_E2E_ORG" env))
    ∷ ("project", str (setting "INTEMPT_E2E_PROJECT" env))
    ∷ ("api_key", str (setting "INTEMPT_E2E_API_KEY" env))
    ∷ ("source_id", value_or_none (setting "INTEMPT_E2E_SOURCE_ID" env))
    ∷ ("host", str (or_text "api.staging.intempt.com" (getenv "INTEMPT_E2E_HOST" env)))
    ∷ ("scheme", str (or_text "https" (getenv "INTEMPT_E2E_SCHEME" env)))
    ∷ []

unfoldable pub batched_options : Environ → Options
batched_options env =
    (
      "batch",
      batch_options
          (record { size = 50; flush_ms = 60000; max_queue = 1000; flush_on_exit = true }),
    )
    ∷ contract_options env

abbrev pub texts : List String → List Value
texts [] = []
texts (s ∷ rest) = str s ∷ texts rest

abbrev pub with_user : String → Options → Options
with_user user options = ("user_id", str user) ∷ options

-- `PRODUCT_ID or "sdk-e2e-product"`
abbrev pub or_default : String → String → String
or_default default s = if is_nil s then default else s
