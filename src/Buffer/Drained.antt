-- ===== src/Buffer/Drained.antt =====
-- Outside `close`, `flush` goes on until the queue is empty or the batcher has stopped.
use intempt_python.Prelude.{
  true, Option, none, some, List, [], ◌≡◌, ◌⊎◌, inl, refl, arith, is_empty, Returns,
}
use intempt_python.Errors.{ApiError, Error, as_api_error}
use intempt_python.Buffer.State.{Buffer, Env, Action, requeue, stop, Round, rejected, note}
use intempt_python.Buffer.Retry.{retry, back_off, handle_failure, reads_past_deadline}
use intempt_python.Buffer.Drain.{settle, after_send, flush, cancel_timer}
use intempt_python.Buffer.Valid.{IsValid}
use intempt_python.Buffer.Rounds.{cleared, Goes, flush-Returns}
use intempt_python.Buffer.Cases.{ends, round-cases, failure-cases}
use intempt_python.Buffer.Frame.{accept-SameFrame, handle_failure-SameFrame}

module _ {E : Type 0} where
  -- Nothing is left that a later flush could send.
  abbrev pub IsDrained : Buffer E → Type 0
  IsDrained b = (b.stopped ≡ true) ⊎ (b.queue ≡ [])

  abbrev IsUnbounded : Buffer E → Type 0
  IsUnbounded b = b.close_deadline ≡ none

  pub empty_of_is_empty : (xs : List E) → is_empty xs ≡ true → xs ≡ []
  empty_of_is_empty xs h = ground arith

module _ {E W : Type 0} (env : Env E W) where
  -- A round that returns leaves nothing to send, if no deadline is set.
  abbrev Exhausts : Round E W → Type 0
  Exhausts = Goes (λ b w. IsUnbounded b) (λ b w. IsUnbounded b × IsDrained b)

  retry_stops :
      (e : Option ApiError) (b : Buffer E) (w : W)
      → IsUnbounded b
      → (retry env e b w).0 ≡ stop
      → (retry env e b w).1.stopped ≡ true
  unfolding retry back_off reads_past_deadline
  retry_stops e b w u h = ground arith

  handle_failure_stops :
      (error : Error) (batch : List E) (b : Buffer E) (w : W)
      → IsUnbounded b
      → (handle_failure env error batch b w).0 ≡ stop
      → (handle_failure env error batch b w).1.stopped ≡ true
  handle_failure_stops error batch b w u =
      failure-cases env (λ r. r.0 ≡ stop → r.1.stopped ≡ true) error batch b w (λ h k. cc)
        (λ h k l. cc) (λ h k. retry_stops (as_api_error error) (cleared b) w u)

  settle-Exhausts :
      (r : Action × Buffer E × W)
      → IsUnbounded r.1
      → (r.0 ≡ stop → r.1.stopped ≡ true)
      → Exhausts (settle r)
  settle-Exhausts (requeue, b, w) u h = u
  settle-Exhausts (stop, b, w) u h = (u, inl (h refl))

  after_send-Exhausts :
      (outcome : Option Error) (batch : List E) (b : Buffer E) (w : W)
      → IsUnbounded b
      → Exhausts (after_send env outcome batch b w)
  unfolding after_send
  after_send-Exhausts none batch b w u = ground (arith, accept-SameFrame batch b)
  after_send-Exhausts (some error) batch b w u =
      let b' : Buffer E = note (rejected batch error) b in
      settle-Exhausts (handle_failure env error batch b' w)
        (ground (arith, handle_failure-SameFrame env error batch b' w))
        (handle_failure_stops error batch b' w u)

  ends-IsDrained : (b : Buffer E) (w : W) → IsUnbounded b → ends env b w ≡ true → IsDrained b
  unfolding reads_past_deadline
  ends-IsDrained b w u h = ground (arith, empty_of_is_empty b.queue)

  -- From a valid state with no deadline set, as everywhere but in `close`, `flush` returns only
  -- when the queue is empty or the batcher has stopped, whatever `send` does. No deadline is set
  -- then either.
  pub flush_drains :
      (b : Buffer E) (w : W)
      → IsValid b
      → b.close_deadline ≡ none
      → Returns
          (λ (b', w').
            IsValid b' × ((b'.close_deadline ≡ none) × ((b'.stopped ≡ true) ⊎ (b'.queue ≡ []))))
          (flush env b w)
  flush_drains b w v u =
      flush-Returns env (λ b' w'. IsUnbounded b') (λ b' w'. IsUnbounded b' × IsDrained b')
        (λ b' w' v' u'.
          round-cases env Exhausts b' w' v' (λ h. (u', ends-IsDrained b' w' u' h))
            (λ h t front. after_send-Exhausts _ _ b' _ u'))
        b w v (unfold cancel_timer in u)
