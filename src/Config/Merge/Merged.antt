-- ===== src/Config/Merge/Merged.antt =====
-- What `merge_config` changes and what it keeps.
use intempt_python.Prelude.{
  String, false, List, [], ◌∷◌, All, Bool-cases, ◌≡◌, inl, inr, refl, if◌then◌else◌,
}
use intempt_python.Config.Host.{split_host}
use intempt_python.Config.Record.{ResolvedConfig, fixed_options}
use intempt_python.Config.Resolve.{check_scheme, check_timeout}
use intempt_python.Config.Merge.{
  set_host, set_scheme, set_timeout, set_logger, set_path, set_debug, set_max_request_events,
  set_max_concurrent_requests, unknown_options, refuse_unknown, refuse_fixed, patched,
  checked_logger, apply_patch, merge_config,
}
use intempt_python.Python.Value.{Value, Options, get, has}
use intempt_python.Python.Result.{
  Result, ok, raised, Ensures, bind-Ensures, Ensures-ok, raise_if-Ensures, ◌>>=◌, Ensures-weaken,
}

-- A field, or a group of them, is what the check made of the option, if the option was given, and as
-- it was otherwise.
abbrev pub Updated :
    {A : Type 0}
    → String
    → Options
    → (Value → Result A)
    → (ResolvedConfig → A)
    → ResolvedConfig
    → ResolvedConfig
    → Type 0
Updated name patch check view before after =
    if has name patch then check (get name patch) ≡ ok (view after) else view after ≡ view before

-- The six fields that no patch reaches.
pub record KeepsFixed (before after : ResolvedConfig) : Type 0 where
  pub org : after.org ≡ before.org
  pub project : after.project ≡ before.project
  pub credentials : after.credentials ≡ before.credentials
  pub source_id : after.source_id ≡ before.source_id
  pub batch : after.batch ≡ before.batch
  pub keep_alive : after.keep_alive ≡ before.keep_alive

pub record IsPatched (show : Value → String) (patch : Options) (before after : ResolvedConfig)
    : Type 0 where
  pub fixed : KeepsFixed before after
  pub host : Updated "host" patch split_host (λ c. (c.host, c.port)) before after
  pub scheme : Updated "scheme" patch (check_scheme show) (λ c. c.scheme) before after
  pub timeout : Updated "timeout" patch check_timeout (λ c. c.timeout) before after
  pub logger : Updated "logger" patch checked_logger (λ c. c.logger) before after
  pub path : Updated "path" patch ok (λ c. c.path) before after
  pub debug : Updated "debug" patch ok (λ c. c.debug) before after
  pub max_request_events :
      Updated "max_request_events" patch ok (λ c. c.max_request_events) before after
  pub max_concurrent_requests :
      Updated "max_concurrent_requests" patch ok (λ c. c.max_concurrent_requests) before after

bind_lem :
    {A : Type 0} (Q : ResolvedConfig → Type 0) (m : Result A)
    (set : A → ResolvedConfig → ResolvedConfig) (config : ResolvedConfig)
    (rest : ResolvedConfig → Result ResolvedConfig)
    → ((a : A) → m ≡ ok a → Ensures Q (rest (set a config)))
    → Ensures Q ((m >>= λ a. ok (set a config)) >>= rest)
bind_lem Q (ok a) set config rest k = k a refl
bind_lem Q (raised e) set config rest k = tt

-- The rule for one `patched` step of a chain.
patched-Ensures :
    {A : Type 0} (Q : ResolvedConfig → Type 0) (name : String) (patch : Options)
    (check : Value → Result A) (set : A → ResolvedConfig → ResolvedConfig)
    (view : ResolvedConfig → A) (config : ResolvedConfig)
    (rest : ResolvedConfig → Result ResolvedConfig)
    → set (view config) config ≡ config
    → ((a : A)
        → (if has name patch then check (get name patch) ≡ ok a else a ≡ view config)
        → Ensures Q (rest (set a config)))
    → Ensures Q (patched name patch check set config >>= rest)
patched-Ensures Q name patch check set view config rest law k = elim (Bool-cases (has name patch)) [
  | inl given ↦
      rw given (bind_lem Q (check (get name patch)) set config rest (λ a e. k a (rw given e)))
  | inr absent ↦ rw absent (rw law at (k (view config) (rw absent refl)))
]

refuse_fixed_lem :
    (names : List String) (patch : Options)
    → Ensures (λ u. All (λ name. has name patch ≡ false) names) (refuse_fixed names patch)
unfolding refuse_fixed
refuse_fixed_lem [] patch = tt
refuse_fixed_lem (name ∷ names) patch =
    raise_if-Ensures _ (has name patch) _ (refuse_fixed names patch) (λ absent.
      Ensures-weaken _ _ (refuse_fixed names patch) (λ u others. (absent, others))
        (refuse_fixed_lem names patch))

apply_patch-IsPatched :
    (show : Value → String) (patch : Options) (current : ResolvedConfig)
    → Ensures (IsPatched show patch current) (apply_patch show patch current)
unfolding apply_patch
apply_patch-IsPatched show patch current =
    let Q = IsPatched show patch current in
    patched-Ensures Q "host" patch split_host set_host (λ c. (c.host, c.port)) (current) _ refl
      λ host_new host_ok.
        patched-Ensures Q "scheme" patch (check_scheme show) set_scheme (λ c. c.scheme)
          (set_host host_new current) _ refl
          λ scheme_new scheme_ok.
            patched-Ensures Q "timeout" patch check_timeout set_timeout (λ c. c.timeout)
              (set_scheme scheme_new (set_host host_new current)) _ refl
              λ timeout_new timeout_ok.
                patched-Ensures Q "logger" patch checked_logger set_logger (λ c. c.logger)
                  (set_timeout timeout_new (set_scheme scheme_new (set_host host_new current))) _
                  refl
                  λ logger_new logger_ok.
                    patched-Ensures Q "path" patch ok set_path (λ c. c.path)
                      (set_logger logger_new (
                        set_timeout timeout_new
                          (set_scheme scheme_new (set_host host_new current))))
                      _ refl
                      λ path_new path_ok.
                        patched-Ensures Q "debug" patch ok set_debug (λ c. c.debug)
                          (set_path path_new (
                            set_logger logger_new (
                              set_timeout timeout_new
                                (set_scheme scheme_new (set_host host_new current)))))
                          _ refl
                          λ debug_new debug_ok.
                            patched-Ensures Q "max_request_events" patch ok set_max_request_events
                              (λ c. c.max_request_events)
                              (set_debug debug_new (
                                set_path path_new (
                                  set_logger logger_new (
                                    set_timeout timeout_new
                                      (set_scheme scheme_new (set_host host_new current))))))
                              _ refl
                              λ max_request_events_new max_request_events_ok.
                                patched-Ensures Q "max_concurrent_requests" patch ok
                                  set_max_concurrent_requests (λ c. c.max_concurrent_requests)
                                  (set_max_request_events max_request_events_new (
                                    set_debug debug_new (
                                      set_path path_new (
                                        set_logger logger_new (
                                          set_timeout timeout_new
                                            (set_scheme scheme_new (set_host host_new current)))))))
                                  ok refl
                                  λ max_concurrent_requests_new max_concurrent_requests_ok. record {
                                    fixed = record {
                                      org = refl;
                                      project = refl;
                                      credentials = refl;
                                      source_id = refl;
                                      batch = refl;
                                      keep_alive = refl;
                                    };
                                    host = host_ok;
                                    scheme = scheme_ok;
                                    timeout = timeout_ok;
                                    logger = logger_ok;
                                    path = path_ok;
                                    debug = debug_ok;
                                    max_request_events = max_request_events_ok;
                                    max_concurrent_requests = max_concurrent_requests_ok;
                                  }

-- A patch that `merge_config` accepts names none of the six fixed options, and leaves the fields
-- they stand for as they were. A host, scheme, timeout or logger that it names has passed its check
-- and sets its field to the checked value, a host its port too, so that a host without a port leaves
-- none behind; a path, `debug` and the two request limits set their fields to the value that is
-- given, without a check. Of these eight, one that is not named leaves its field as it was. A `port`
-- or `credentials` that it names changes nothing: the port follows the host alone.
pub merge_config-IsPatched :
    (show : Value → String) (current : ResolvedConfig) (patch : Options)
    → Ensures
        (λ after.
          IsPatched show patch current after × All (λ name. has name patch ≡ false) fixed_options)
        (merge_config show current patch)
unfolding merge_config
merge_config-IsPatched show current patch =
    bind-Ensures _ (refuse_unknown (unknown_options patch)) _ λ u known.
      bind-Ensures _ (refuse_fixed fixed_options patch) _ λ u' allowed.
        Ensures-weaken _ _ (apply_patch show patch current)
          (λ after h. (h, Ensures-ok _ _ u' (refuse_fixed_lem fixed_options patch) allowed))
          (apply_patch-IsPatched show patch current)
