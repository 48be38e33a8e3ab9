-- ===== src/Buffer/Valid.antt =====
-- The invariant of a `Buffer`, and that the methods which call neither `send` nor `flush` keep it.
use intempt_python.Prelude.{ℕ, ◌≤◌, Option, List, arith, length, length-drop}
use intempt_python.Config.Options.{BatchOptions, AreValid}
use intempt_python.Errors.{ApiError, Error, as_api_error}
use intempt_python.Config.Options.{BatchOptions}
use intempt_python.Buffer.State.{Buffer, Env, new, full_width}
use intempt_python.Buffer.Retry.{
  widen_if_earned, accept, handle_too_large, drop_too_large, drop_batch, back_off, retry,
  handle_failure,
}

-- The width lies between one event and the full width, and the queue within its bound.
pub record IsValid {E : Type 0} (b : Buffer E) : Type 0 where
  pub width_pos : 1 ≤ b.batch_size
  pub width-le-full : b.batch_size ≤ full_width b
  pub size-le-max : length b.queue ≤ b.options.max_queue

module _ {E : Type 0} where
  pub new-IsValid :
      (o : BatchOptions) (m budget : ℕ) → AreValid o → 1 ≤ m → IsValid {E = E} (new o m budget)
  unfolding new
  new-IsValid o m budget h k = omega arith

  pub widen_if_earned-IsValid :
      (sent : ℕ) (b : Buffer E) → IsValid b → IsValid (widen_if_earned sent b)
  unfolding widen_if_earned
  widen_if_earned-IsValid sent b v = ground arith

  pub accept-IsValid : (batch : List E) (b : Buffer E) → IsValid b → IsValid (accept batch b)
  unfolding accept widen_if_earned
  accept-IsValid batch b v = ground (arith, length-drop (length batch) b.queue)

  pub drop_batch-IsValid :
      (e : Option ApiError) (batch : List E) (b : Buffer E)
      → IsValid b
      → IsValid (drop_batch e batch b)
  unfolding drop_batch
  drop_batch-IsValid e batch b v = ground (arith, length-drop (length batch) b.queue)

module _ {E W : Type 0} (env : Env E W) where
  pub handle_too_large-IsValid :
      (batch : List E) (b : Buffer E)
      → length batch ≤ b.batch_size
      → IsValid b
      → IsValid (handle_too_large env batch b)
  unfolding handle_too_large drop_too_large
  handle_too_large-IsValid batch b h v = ground (arith, length-drop 1 b.queue)

  pub retry-IsValid :
      (e : Option ApiError) (b : Buffer E) (w : W) → IsValid b → IsValid (retry env e b w).1
  unfolding retry back_off
  retry-IsValid e b w v = ground arith

  pub handle_failure-IsValid :
      (error : Error) (batch : List E) (b : Buffer E) (w : W)
      → length batch ≤ b.batch_size
      → IsValid b
      → IsValid (handle_failure env error batch b w).1
  unfolding handle_failure
  handle_failure-IsValid error batch b w h v =
      let b' : Buffer E = record b { consecutive_successes = 0 } in
      ground (
        arith,
        handle_too_large-IsValid batch b' h,
        drop_batch-IsValid (as_api_error error) batch b',
        retry-IsValid (as_api_error error) b' w,
      )
