-- ===== src/Config/Resolve.antt =====
-- intempt/_config.py: `resolve_config`.
pub mod Checked
use Prim.Native.String.{◌++◌}
use text.Mathlib.Text.{◌==◌}
use text.Mathlib.TextEquality.{eq_iff}
use intempt_python.Prelude.{
  ℕ, zero, suc, ◌≤◌, String, Bool, true, false, ◌&&◌, ◌||◌, not, Option, none, some, List, [], ◌∷◌,
  ◌≡◌, ◌⊎◌, inl, inr, refl, arith, if-cases, Bool-cases, if◌then◌else◌,
}
use intempt_python.Errors.{config_error, other_error}
use intempt_python.Config.Options.{BatchOptions}
use intempt_python.Config.Batch.{
  below_one, int_of, resolve_batch, HasIntegerSizes, HasValid, resolve_batch-HasValid,
}
use intempt_python.Config.Host.{split_host, PortInRange, IsHost, split_host-IsHost}
use intempt_python.Config.Credentials.{Credentials, api_key_credentials}
use intempt_python.Config.Record.{
  ResolvedConfig, default_host, default_max_request_events, default_max_concurrent_requests,
}
use intempt_python.Python.Float.{
  ℤ, pos, negsuc, Float, nan, infinity, neg_infinity, finite, is_not_positive, of_int, of_ratio,
  is_finite,
}
use intempt_python.Python.Text.{is_nil, is_blank, contains}
use intempt_python.Python.Value.{
  Value, null, bool, int, float, str, object, Options, get, get_or, is_null, truthy, str_of,
}
use intempt_python.Python.Result.{
  Result, ok, raised, ◌>>=◌, ◌>>◌, raise_if, Ensures, bind-Ensures, Ensures-ok, raise_if-Ensures,
}
use intempt_python.Util.{assert_logger}

-- One turn of the loop over "org", "project" and "api_key", with the text that it checked.
unfoldable pub required : String → Value → Result String
required name (str s) =
    if is_blank s then raised (config_error ("Intempt: \"" ++ (name ++ "\" is required"))) else ok s
required name v = raised (config_error ("Intempt: \"" ++ (name ++ "\" is required")))

unfoldable pub resolve_source_id : (Value → String) → Value → Result (Option String)
resolve_source_id show null = ok none
resolve_source_id show v =
    let s = str_of show v in
    if is_blank s
    then raised (config_error "Intempt: \"source_id\" must not be empty when provided")
    else ok (some s)

-- `scheme not in ("http", "https")`, as a test and as the check that both functions make.
unfoldable pub check_scheme : (Value → String) → Value → Result String
check_scheme show (str s) =
    if s == "http" || s == "https"
    then ok s
    else raised (config_error ("unsupported scheme \"" ++ (s ++ "\"")))
check_scheme show v = raised (config_error ("unsupported scheme \"" ++ (str_of show v ++ "\"")))

-- `float(i)`, which overflows where the nearest float would be infinite.
abbrev float_of_int : ℤ → Result Float
float_of_int i =
    if is_finite (of_int i) then ok (of_int i) else raised (other_error "OverflowError")

-- The check of `timeout` that both functions make.
unfoldable pub check_seconds : Value → Result Value
check_seconds (int i) =
    if below_one i
    then raised (config_error "timeout must be a positive number of seconds")
    else ok (int i)
check_seconds (float x) =
    if is_not_positive x
    then raised (config_error "timeout must be a positive number of seconds")
    else ok (float x)
check_seconds v = raised (config_error "timeout must be a positive number of seconds")

-- `float(timeout)`, of a value that passed the check.
unfoldable pub float_of : Value → Result Float
float_of (int i) = float_of_int i
float_of (float x) = ok x
float_of v = raised (other_error "TypeError")

-- The two at once, as `merge_config` has them.
unfoldable pub check_timeout : Value → Result Float
check_timeout v = check_seconds v >>= float_of

-- `not isinstance(value, int) or value < 1`
abbrev pub is_count : Value → Bool
is_count v = elim (int_of v) [ none ↦ false | some i ↦ not (below_one i) ]

unfoldable pub check_count : String → Value → Result Value
check_count name v =
    if is_count v then ok v else raised (config_error (name ++ " must be a positive integer"))

abbrev pub default_timeout : Float
default_timeout = finite false 10 0

-- `options.get("host")`, with the default where it is `None`.
abbrev or_default : Value → Value
or_default null = str default_host
or_default v = v

-- `options.get("logger") or logging.getLogger("intempt")`; `default` is the logger of the second.
abbrev logger_or : Value → Value → Value
logger_or default v = if truthy v then v else default

module _ (show : Value → String) (default_logger : Value) where
  unfoldable pub resolve_config : Options → Result ResolvedConfig
  resolve_config options = do
    org ← required "org" (get "org" options)
    project ← required "project" (get "project" options)
    api_key ← required "api_key" (get "api_key" options)
    source_id ← resolve_source_id show (get "source_id" options)
    host ← split_host (or_default (get "host" options))
    scheme ← check_scheme show (get_or "scheme" (str "https") options)
    seconds ← check_seconds (get_or "timeout" (float default_timeout) options)
    max_events ←
        check_count "max_request_events"
          (get_or "max_request_events" (int (pos default_max_request_events)) options)
    max_concurrent ←
        check_count "max_concurrent_requests"
          (get_or "max_concurrent_requests" (int (pos default_max_concurrent_requests)) options)
    batch ← resolve_batch (get "batch" options)
    let logger = logger_or default_logger (get "logger" options)
    assert_logger logger
    credentials ← api_key_credentials (str api_key)
    timeout ← float_of seconds
    ok (record {
      org = org;
      project = project;
      credentials = credentials;
      host = host.0;
      port = host.1;
      scheme = scheme;
      path = get_or "path" (str "") options;
      timeout = timeout;
      keep_alive = truthy (get_or "keep_alive" (bool true) options);
      debug = bool (truthy (get_or "debug" (bool false) options));
      source_id = source_id;
      batch = batch;
      max_request_events = max_events;
      max_concurrent_requests = max_concurrent;
      logger = logger;
    })
