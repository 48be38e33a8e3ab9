-- ===== src/Buffer/Waits.antt =====
-- `_backoff_ms`: how long a retry waits.
use intempt_python.Prelude.{
  ℕ, ◌+◌, ◌*◌, ◌^◌, ◌≤◌, Option, none, some, List, ◌≡◌, arith, All, Returns,
}
use intempt_python.Errors.{ApiError, Error, as_api_error}
use intempt_python.Buffer.State.{
  Buffer, Env, Effect, rejected, slept, note, max_retry_interval_ms, min_retry_interval_ms,
}
use intempt_python.Buffer.Retry.{
  advised_ms, backoff_ms, accept, widen_if_earned, handle_too_large, drop_too_large, drop_batch,
  retry, back_off, handle_failure,
}
use intempt_python.Buffer.Drain.{flush, cancel_timer}
use intempt_python.Buffer.Valid.{IsValid}
use intempt_python.Buffer.Rounds.{cleared}
use intempt_python.Buffer.Cases.{flush_invariant, failure-cases}

module _ {E : Type 0} where
  backoff_bounds :
      (e : Option ApiError) (b : Buffer E)
      → (min_retry_interval_ms ≤ backoff_ms e b) × (backoff_ms e b ≤ max_retry_interval_ms)
  unfolding backoff_ms
  backoff_bounds e b = omega arith

  -- The wait is never below 100 ms or above 10 minutes. Between them it is the advice, if the
  -- failure carries a positive one, and otherwise `flush_ms` doubled once for each consecutive
  -- failure.
  pub backoff_ms_lem :
      (e : Option ApiError) (b : Buffer E)
      → (min_retry_interval_ms ≤ backoff_ms e b)
        × (backoff_ms e b ≤ max_retry_interval_ms)
        × ((ms : ℕ)
            → advised_ms e ≡ some ms
            → min_retry_interval_ms ≤ ms
            → ms ≤ max_retry_interval_ms
            → backoff_ms e b ≡ ms)
        × (advised_ms e ≡ none
            → b.options.flush_ms * 2 ^ b.consecutive_failures ≤ max_retry_interval_ms
            → min_retry_interval_ms ≤ b.options.flush_ms * 2 ^ b.consecutive_failures
            → backoff_ms e b ≡ b.options.flush_ms * 2 ^ b.consecutive_failures)
  backoff_ms_lem e b = (
    (backoff_bounds e b).0,
    (backoff_bounds e b).1,
    unfold backoff_ms in λ ms h lo hi. rw h (omega arith),
    unfold backoff_ms in λ h hi lo. rw h (omega arith),
  )

  -- A wait, where the effect is one, is within the bounds.
  abbrev pub InBounds : Effect E → Type 0
  InBounds (slept ms) = (min_retry_interval_ms ≤ ms) × (ms ≤ max_retry_interval_ms)
  InBounds x = Unit

  abbrev IsPatient : Buffer E → Type 0
  IsPatient b = All InBounds b.effects

  accept-IsPatient : (batch : List E) (b : Buffer E) → IsPatient b → IsPatient (accept batch b)
  unfolding accept widen_if_earned
  accept-IsPatient batch b h = ground arith

module _ {E W : Type 0} (env : Env E W) where
  handle_too_large-IsPatient :
      (batch : List E) (b : Buffer E) → IsPatient b → IsPatient (handle_too_large env batch b)
  unfolding handle_too_large drop_too_large
  handle_too_large-IsPatient batch b h = ground arith

  retry-IsPatient :
      (e : Option ApiError) (b : Buffer E) (w : W) → IsPatient b → IsPatient (retry env e b w).1
  unfolding retry back_off
  retry-IsPatient e b w h =
      ground
        (arith, backoff_bounds e (record b { consecutive_failures = b.consecutive_failures + 1 }))

  handle_failure-IsPatient :
      (error : Error) (batch : List E) (b : Buffer E) (w : W)
      → IsPatient b
      → IsPatient (handle_failure env error batch b w).1
  handle_failure-IsPatient error batch b w h =
      failure-cases env (λ r. IsPatient r.1) error batch b w
        (λ k. handle_too_large-IsPatient batch (cleared b) h) (λ k l. unfold drop_batch in (tt, h))
        (λ k l. retry-IsPatient (as_api_error error) (cleared b) w h)

  -- However `send` fails and whatever it advises, `flush` returns, and each of its waits is at least
  -- 100 ms and at most 10 minutes, if that holds of the waits before it.
  pub flush_waits-InBounds :
      (b : Buffer E) (w : W)
      → IsValid b
      → All InBounds b.effects
      → Returns (λ (b', w'). IsValid b' × All InBounds b'.effects) (flush env b w)
  flush_waits-InBounds b w v h =
      flush_invariant env IsPatient (λ batch b' o t front h'. accept-IsPatient batch b' h')
        (λ error batch b' w' o t front h'.
          handle_failure-IsPatient error batch (note (rejected batch error) b') w' (tt, h'))
        b w v (unfold cancel_timer in h)
