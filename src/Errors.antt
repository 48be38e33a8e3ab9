-- ===== src/Errors.antt =====
-- intempt/_errors.py: what the SDK raises.
use intempt_python.Prelude.{ℕ, String, Bool, true, ◌||◌, Option, none, some, leb, ◌==◌}

-- `IntemptApiError`, less the `cause` that it chains for tracebacks. `status` is `none` for a
-- transport failure or a timeout.
pub record ApiError : Type 0 where
  pub message : String
  pub status : Option ℕ
  pub body : Option String
  pub retry_after_ms : Option ℕ

abbrev retryable_status : Option ℕ → Bool
retryable_status none = true
retryable_status (some s) = s == 408 || s == 429 || leb 500 s

-- The property `IntemptApiError.retryable`.
unfoldable pub retryable : ApiError → Bool
retryable e = retryable_status e.status

-- An exception: `IntemptConfigError`, `IntemptApiError`, or one that the SDK does not define
-- (a `TypeError` of `json.dumps`, an `AttributeError`), by the name of its class.
pub data Error : Type 0 where
  config_error : String → Error
  api_error : ApiError → Error
  other_error : String → Error

-- `error if isinstance(error, IntemptApiError) else None`
abbrev pub as_api_error : Error → Option ApiError
as_api_error (config_error m) = none
as_api_error (api_error e) = some e
as_api_error (other_error m) = none
