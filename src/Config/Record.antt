-- ===== src/Config/Record.antt =====
-- intempt/_config.py: the fields of `ResolvedConfig`, its defaults and `project_path`.
use Prim.Native.String.{◌++◌}
use intempt_python.Prelude.{ℕ, String, Bool, Option, List, [], ◌∷◌}
use intempt_python.Config.Options.{BatchOptions}
use intempt_python.Config.Credentials.{Credentials}
use intempt_python.Python.Float.{Float}
use intempt_python.Python.Encode.{quote}
use intempt_python.Python.Value.{Value, str_of}

abbrev pub default_host : String
default_host = "api.intempt.com"

abbrev pub default_max_request_events : ℕ
default_max_request_events = 50

abbrev pub default_max_concurrent_requests : ℕ
default_max_concurrent_requests = 1

-- The options fixed at construction.
abbrev pub fixed_options : List String
fixed_options = "org" ∷ "project" ∷ "api_key" ∷ "source_id" ∷ "batch" ∷ "keep_alive" ∷ []

-- Fields that `set_config` fills with whatever it is given are values.
pub record ResolvedConfig : Type 0 where
  pub org : String
  pub project : String
  pub credentials : Credentials
  pub host : String
  pub port : Option ℕ
  pub scheme : String
  pub path : Value
  pub timeout : Float
  pub keep_alive : Bool
  pub debug : Value
  pub source_id : Option String
  pub batch : Option BatchOptions
  pub max_request_events : Value
  pub max_concurrent_requests : Value
  pub logger : Value

-- The names of its fields.
abbrev pub field_names : List String
field_names =
    "org" ∷ "project" ∷ "credentials" ∷ "host" ∷ "port" ∷ "scheme" ∷ "path" ∷ "timeout"
    ∷ "keep_alive" ∷ "debug" ∷ "source_id" ∷ "batch" ∷ "max_request_events"
    ∷ "max_concurrent_requests" ∷ "logger" ∷ []

-- `ResolvedConfig.project_path`; `show` is `str` of a path that is no text.
unfoldable pub project_path : (Value → String) → ResolvedConfig → String → String
project_path show config suffix =
    str_of show config.path
    ++ ("/v1/" ++ (quote config.org ++ ("/projects/" ++ (quote config.project ++ suffix))))
