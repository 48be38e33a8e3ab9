-- ===== src/Buffer/Frame.antt =====
-- What a round of `flush` leaves alone: the configuration, the deadline, the timer and the hook.
use intempt_python.Prelude.{Option, List, ◌≡◌, refl, arith, Returns}
use intempt_python.Errors.{ApiError, Error, as_api_error}
use intempt_python.Buffer.State.{Buffer, Env, rejected, note}
use intempt_python.Buffer.Retry.{
  accept, widen_if_earned, handle_too_large, drop_too_large, drop_batch, retry, back_off,
  handle_failure,
}
use intempt_python.Buffer.Drain.{flush, cancel_timer}
use intempt_python.Buffer.Valid.{IsValid}
use intempt_python.Buffer.Rounds.{cleared}
use intempt_python.Buffer.Cases.{flush_invariant, failure-cases}

pub record SameFrame {E : Type 0} (b b' : Buffer E) : Type 0 where
  pub options : b'.options ≡ b.options
  pub max_request_events : b'.max_request_events ≡ b.max_request_events
  pub close_budget : b'.close_budget ≡ b.close_budget
  pub close_deadline : b'.close_deadline ≡ b.close_deadline
  pub timer : b'.timer ≡ b.timer
  pub exit_hook : b'.exit_hook ≡ b.exit_hook

module _ {E : Type 0} where
  pub SameFrame-refl : (b : Buffer E) → SameFrame b b
  SameFrame-refl b = record {
    options = refl;
    max_request_events = refl;
    close_budget = refl;
    close_deadline = refl;
    timer = refl;
    exit_hook = refl;
  }

  SameFrame-trans : {a b c : Buffer E} → SameFrame a b → SameFrame b c → SameFrame a c
  SameFrame-trans p q = ground arith

  pub accept-SameFrame : (batch : List E) (b : Buffer E) → SameFrame b (accept batch b)
  unfolding accept widen_if_earned
  accept-SameFrame batch b = ground arith

  drop_batch-SameFrame :
      (e : Option ApiError) (batch : List E) (b : Buffer E) → SameFrame b (drop_batch e batch b)
  unfolding drop_batch
  drop_batch-SameFrame e batch b = ground arith

module _ {E W : Type 0} (env : Env E W) where
  handle_too_large-SameFrame :
      (batch : List E) (b : Buffer E) → SameFrame b (handle_too_large env batch b)
  unfolding handle_too_large drop_too_large
  handle_too_large-SameFrame batch b = ground arith

  retry-SameFrame : (e : Option ApiError) (b : Buffer E) (w : W) → SameFrame b (retry env e b w).1
  unfolding retry back_off
  retry-SameFrame e b w = ground arith

  pub handle_failure-SameFrame :
      (error : Error) (batch : List E) (b : Buffer E) (w : W)
      → SameFrame b (handle_failure env error batch b w).1
  handle_failure-SameFrame error batch b w =
      failure-cases env (λ r. SameFrame b r.1) error batch b w
        (λ h. ground (arith, handle_too_large-SameFrame batch (cleared b)))
        (λ h k. ground (arith, drop_batch-SameFrame (as_api_error error) batch (cleared b)))
        (λ h k. ground (arith, retry-SameFrame (as_api_error error) (cleared b) w))

  pub flush-SameFrame :
      (b : Buffer E) (w : W)
      → IsValid b
      → Returns (λ (b', w'). IsValid b' × SameFrame (cancel_timer b) b') (flush env b w)
  flush-SameFrame b w v =
      flush_invariant env (SameFrame (cancel_timer b))
        (λ batch b' o t front h. SameFrame-trans h (accept-SameFrame batch b'))
        (λ error batch b' w' o t front h. SameFrame-trans h (
          ground (arith, handle_failure-SameFrame error batch (note (rejected batch error) b') w')))
        b w v (SameFrame-refl (cancel_timer b))
