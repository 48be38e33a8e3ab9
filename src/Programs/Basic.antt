-- ===== src/Programs/Basic.antt =====
-- examples/basic/app.py: an HTTP server that instruments itself with one client, its data and what a
-- POST makes it do. A reply is the value that a handler ends with; its bytes are not modelled, nor
-- are the signals.
pub mod Handlers
pub mod Replies
pub mod Served
mod Tests
use text.Mathlib.Text.{◌==◌}
use intempt_python.Prelude.{
  ℕ, zero, String, Bool, true, false, ◌||◌, Option, none, some, List, [], ◌∷◌, if◌then◌else◌,
}
use intempt_python.Config.Host.{parse_int}
use intempt_python.Config.Options.{BatchOptions}
use intempt_python.Errors.{Error, config_error, api_error, other_error}
use intempt_python.Python.Float.{ℤ, pos, negsuc}
use intempt_python.Python.Result.{Result, ok, raised}
use intempt_python.Python.Text.{is_nil}
use intempt_python.Python.Value.{
  Value, null, bool, int, str, list, dict, nil, batch_options, Options, field, end, truthy,
}
use intempt_python.Client.Session.{Outside, Client, items, close_client}
use intempt_python.Client.Consent.{reject}
use intempt_python.Client.Recommend.{Recommendation, recommend}
use intempt_python.Client.Writes.{Write, track_call, identify_call, ordered_call, consent_call}
use intempt_python.Programs.Process.{
  Environ, getenv, or_text, text_value, missing_of, Process, Action, return, call_all, read,
  open_client,
}

-- A form, or a query: the first value of each name.
abbrev pub Form : Type 0
Form = List (String × String)

abbrev pub lookup : String → Form → Option String
lookup = getenv

-- The handler's request: `self.path`, the Content-Length header, and what `self.rfile.read(n).decode()`
-- gives, `none` for a `UnicodeDecodeError`.
pub record Request : Type 0 where
  pub path : String
  pub content_length : Option String
  pub decoded : ℤ → Option String

-- What the handler calls of `urllib.parse`: the two parts of `urlparse(path)` that it reads, and
-- `parse_qs`, whose lists are never empty. Of an exception that the SDK does not define, whether it is
-- a `ValueError`, and its text.
pub record Library : Type 0 where
  pub route : String → String
  pub query : String → String
  pub parse_qs : String → List (String × (String × List String))
  pub is_value_error : String → Bool
  pub text_of : String → String

pub data Incoming : Type 0 where
  post_request get_request : Request → Incoming

pub record Reply : Type 0 where
  pub status : ℕ
  pub payload : Value

-- `log.error`
pub data Line : Type 0 where
  write_rejected : String → Line
  lookup_failed : String → Line

abbrev pub error_payload : String → Value
error_payload message = dict (field "error" (str message) end)

abbrev pub ok_payload : Value
ok_payload = dict (field "ok" (bool true) end)

abbrev pub no_items : Value
no_items = dict (field "items" (list nil) end)

abbrev pub refusal : ℕ → String → Reply
refusal status message = record { status = status; payload = error_payload message }

-- The arguments of the constructor in `build_client`.
unfoldable pub sample_options : Value → Environ → Options
sample_options logger env =
    ("org", text_value (getenv "INTEMPT_ORG" env))
    ∷ ("project", text_value (getenv "INTEMPT_PROJECT" env))
    ∷ ("api_key", text_value (getenv "INTEMPT_API_KEY" env))
    ∷ ("source_id", text_value (getenv "INTEMPT_SOURCE_ID" env))
    ∷ ("host", str (or_text "api.intempt.com" (getenv "INTEMPT_HOST" env)))
    ∷ ("scheme", str (or_text "https" (getenv "INTEMPT_SCHEME" env)))
    ∷ (
      "batch",
      batch_options (record { size = 20; flush_ms = 2000; max_queue = 5000; flush_on_exit = true }),
    )
    ∷ ("logger", logger)
    ∷ []

abbrev pub required_names : List String
required_names = "INTEMPT_ORG" ∷ "INTEMPT_PROJECT" ∷ "INTEMPT_API_KEY" ∷ []

-- `build_client`, where `show` and `default_logger` are as in `open_client`, and `logger` is the sample's;
-- `sys.exit` raises.
abbrev pub unless_missing : List String → (Value → String) → Value → Value → Environ → Result Client
unless_missing [] show default_logger logger env =
    open_client show default_logger (sample_options logger env)
unless_missing (name ∷ names) show default_logger logger env = raised (other_error "SystemExit")

unfoldable pub build_client : (Value → String) → Value → Value → Environ → Result Client
build_client show default_logger logger env =
    unless_missing (missing_of required_names env) show default_logger logger env

abbrev pub first_values : List (String × (String × List String)) → Form
first_values [] = []
first_values ((k, (v, vs)) ∷ rest) = (k, v) ∷ first_values rest

abbrev pub text_or : String → Option String → String
text_or default none = default
text_or default (some s) = s

-- A text that is not set, or empty, is `none`, as `if not user` takes it.
abbrev pub non_empty : Option String → Option String
non_empty none = none
non_empty (some s) = if is_nil s then none else some s

-- What `do_POST` does with a user: it refuses, or makes these writes and then answers.
pub data Plan : Type 0 where
  refuse : Reply → Plan
  fail : Error → Plan
  perform : ℕ → List Write → Plan

abbrev purchase_of : String → String → Option ℤ → Plan
purchase_of user sku none = fail (other_error "ValueError")
purchase_of user sku (some quantity) = perform 201 (
    ordered_call
      (list
        (items (dict (field "product_id" (str sku) (field "quantity" (int quantity) end)) ∷ [])))
      (("user_id", str user) ∷ [])
    ∷ [])

abbrev purchase_plan : String → Form → Option String → Plan
purchase_plan user form none = refuse (refusal 400 "sku is required")
purchase_plan user form (some sku) =
    purchase_of user sku (parse_int (text_or "1" (lookup "qty" form)))

unfoldable pub plan_of : String → Form → String → Plan
plan_of route form user =
    if route == "/signup"
    then perform 201 (
        identify_call (
          ("user_id", str user)
          ∷ ("traits", dict (field "plan" (str (text_or "free" (lookup "plan" form))) end))
          ∷ [])
        ∷ track_call (str "signed_up") (("user_id", str user) ∷ [])
        ∷ [])
    else if route == "/purchase"
    then purchase_plan user form (non_empty (lookup "sku" form))
    else if route == "/forget"
    then perform 202 (
        consent_call reject (("user_id", str user) ∷ ("reason", str "user requested deletion") ∷ [])
        ∷ [])
    else refuse (refusal 404 "no such route")
