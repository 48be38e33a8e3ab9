-- ===== src/Config/Resolve/Checked.antt =====
-- What `resolve_config` has checked of a configuration that it returns.
use text.Mathlib.TextEquality.{eq_iff}
use intempt_python.Prelude.{String, true, false, Option, none, some, ◌≡◌, ◌⊎◌, arith}
use intempt_python.Config.Batch.{HasIntegerSizes, HasValid, resolve_batch, resolve_batch-HasValid}
use intempt_python.Config.Host.{split_host, PortInRange, IsHost, split_host-IsHost}
use intempt_python.Config.Credentials.{api_key_credentials}
use intempt_python.Config.Record.{
  ResolvedConfig, default_max_request_events, default_max_concurrent_requests,
}
use intempt_python.Config.Resolve.{
  required, resolve_source_id, check_scheme, check_seconds, float_of, is_count, check_count,
  default_timeout, or_default, logger_or, resolve_config,
}
use intempt_python.Python.Float.{pos}
use intempt_python.Python.Text.{is_nil, is_blank, contains}
use intempt_python.Python.Value.{Value, null, int, float, str, Options, get, get_or}
use intempt_python.Python.Result.{Ensures, bind-Ensured, bind-Ensures}
use intempt_python.Util.{assert_logger}

abbrev pub IsPresentText : String → Type 0
IsPresentText s = is_blank s ≡ false

abbrev pub IsScheme : String → Type 0
IsScheme s = (s ≡ "http") ⊎ (s ≡ "https")

abbrev pub NotBlank : Option String → Type 0
NotBlank none = Unit
NotBlank (some s) = IsPresentText s

-- A configuration that a client can start from.
pub record IsResolved (c : ResolvedConfig) : Type 0 where
  pub org : IsPresentText c.org
  pub project : IsPresentText c.project
  pub source_id : NotBlank c.source_id
  pub host_named : is_nil c.host ≡ false
  pub host_bare : contains ":" c.host ≡ false
  pub port : PortInRange c.port
  pub scheme : IsScheme c.scheme
  pub batch : HasValid c.batch
  pub max_request_events : is_count c.max_request_events ≡ true
  pub max_concurrent_requests : is_count c.max_concurrent_requests ≡ true

resolved :
    (c : ResolvedConfig)
    → IsPresentText c.org
    → IsPresentText c.project
    → NotBlank c.source_id
    → IsHost (c.host, c.port)
    → IsScheme c.scheme
    → HasValid c.batch
    → is_count c.max_request_events ≡ true
    → is_count c.max_concurrent_requests ≡ true
    → IsResolved c
resolved c org project source_id host scheme batch events concurrent = record {
  org = org;
  project = project;
  source_id = source_id;
  host_named = host.named;
  host_bare = host.bare;
  port = host.port;
  scheme = scheme;
  batch = batch;
  max_request_events = events;
  max_concurrent_requests = concurrent;
}

pub required-IsPresentText : (name : String) (v : Value) → Ensures IsPresentText (required name v)
unfolding required
required-IsPresentText name (str s) = ground arith
required-IsPresentText name _ = tt

check_count_lem :
    (name : String) (v : Value) → Ensures (λ v'. is_count v' ≡ true) (check_count name v)
unfolding check_count
check_count_lem name v = ground arith

module _ (show : Value → String) where
  source_id-NotBlank : (v : Value) → Ensures NotBlank (resolve_source_id show v)
  unfolding resolve_source_id
  source_id-NotBlank null = tt
  source_id-NotBlank _ = ground arith

  pub check_scheme-IsScheme : (v : Value) → Ensures IsScheme (check_scheme show v)
  unfolding check_scheme
  check_scheme-IsScheme (str s) = ground (arith, eq_iff s "http", eq_iff s "https")
  check_scheme-IsScheme _ = tt

  -- Whatever options `resolve_config` accepts: `org` and `project` are not blank, nor is a
  -- `source_id` that was given; the host is not empty and holds no colon, the port is between 1 and
  -- 65535 if there is one, the scheme is http or https; the two request limits are integers of at
  -- least 1; and the batch options, if any, are valid. This is provided that `batch` is no mapping
  -- with a `float` among its sizes, and that an instance of `BatchOptions` passed the checks when it
  -- was constructed, with integers.
  pub resolve_config-IsResolved :
      (default_logger : Value) (options : Options)
      → HasIntegerSizes (get "batch" options)
      → Ensures IsResolved (resolve_config show default_logger options)
  unfolding resolve_config
  resolve_config-IsResolved default_logger options constructed =
      let Q = IsResolved in
      let given = λ (name : String). get name options in
      let IsCount = λ (v : Value). is_count v ≡ true in
      let events = get_or "max_request_events" (int (pos default_max_request_events)) options in
      let concurrent =
        get_or "max_concurrent_requests" (int (pos default_max_concurrent_requests)) options in
      bind-Ensured IsPresentText Q (required "org" (given "org")) _ (required-IsPresentText _ _)
        λ org org_ok.
          bind-Ensured IsPresentText Q (required "project" (given "project")) _
            (required-IsPresentText _ _)
            λ project project_ok.
              bind-Ensures Q (required "api_key" (given "api_key")) _ λ api_key key_ok.
                bind-Ensured NotBlank Q (resolve_source_id show (given "source_id")) _
                  (source_id-NotBlank _)
                  λ source_id source_ok.
                    bind-Ensured IsHost Q (split_host (or_default (given "host"))) _
                      (split_host-IsHost _)
                      λ host host_ok.
                        bind-Ensured IsScheme Q
                          (check_scheme show (get_or "scheme" (str "https") options)) _
                          (check_scheme-IsScheme _)
                          λ scheme scheme_ok.
                            bind-Ensures Q
                              (check_seconds (get_or "timeout" (float default_timeout) options)) _
                              λ seconds seconds_ok.
                                bind-Ensured IsCount Q (check_count "max_request_events" events) _
                                  (check_count_lem _ _)
                                  λ max_events events_ok.
                                    bind-Ensured IsCount Q
                                      (check_count "max_concurrent_requests" concurrent) _
                                      (check_count_lem _ _)
                                      λ max_concurrent concurrent_ok.
                                        bind-Ensured HasValid Q (resolve_batch (given "batch")) _
                                          (resolve_batch-HasValid _ constructed)
                                          λ batch batch_ok.
                                            bind-Ensures Q
                                              (assert_logger
                                                (logger_or default_logger (given "logger")))
                                              _
                                              λ u logger_ok.
                                                bind-Ensures Q (api_key_credentials (str api_key)) _
                                                  λ credentials credentials_ok.
                                                    bind-Ensures Q (float_of seconds) _
                                                      λ timeout timeout_ok.
                                                        resolved _ org_ok project_ok source_ok
                                                          host_ok scheme_ok batch_ok events_ok
                                                          concurrent_ok
