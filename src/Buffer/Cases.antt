-- ===== src/Buffer/Cases.antt =====
-- The branches of one round of `flush`, for proofs that keep the methods shut.
use intempt_python.Prelude.{
  Bool, true, false, ◌||◌, Option, none, some, List, ◌++◌, ◌≡◌, arith, length, take, drop, is_empty,
  if-cases, Returns, take-append-drop, drop-length-take,
}
use intempt_python.Errors.{Error, as_api_error}
use intempt_python.Buffer.State.{
  Buffer, Env, Action, requeue, stop, Round, finished, rejected, note,
}
use intempt_python.Buffer.Retry.{
  accept, handle_too_large, drop_batch, retry, handle_failure, reads_past_deadline, drops_batch,
  is_too_large, status_of,
}
use intempt_python.Buffer.Drain.{settle, after_send, attempt, round, flush, cancel_timer}
use intempt_python.Buffer.Valid.{IsValid}
use intempt_python.Buffer.Rounds.{Goes, flush-Returns, cleared, IsBatch, take-IsBatch}

module _ {E : Type 0} where
  -- The batch is the front of the queue: deleting as many events deletes the batch.
  abbrev pub IsFront : List E → Buffer E → Type 0
  IsFront batch b = batch ++ drop (length batch) b.queue ≡ b.queue

  pub take-IsFront : (b : Buffer E) → IsFront (take b.batch_size b.queue) b
  take-IsFront b =
      rw (drop-length-take b.batch_size b.queue) (take-append-drop b.batch_size b.queue)

module _ {E W : Type 0} where
  -- `P` holds of the state in which a round ends.
  abbrev pub Leads : (Buffer E → Type 0) → Round E W → Type 0
  Leads P = Goes (λ b w. P b) (λ b w. P b)

  pub settle-Leads :
      (P : Buffer E → Type 0) (r : Action × Buffer E × W) → P r.1 → Leads P (settle r)
  settle-Leads P (requeue, b, w) h = h
  settle-Leads P (stop, b, w) h = h

module _ {E W : Type 0} (env : Env E W) where
  -- Why a round returns before it sends.
  abbrev pub ends : Buffer E → W → Bool
  ends b w = (reads_past_deadline env 0 b w).0 || (b.stopped || is_empty b.queue)

  pub round-cases :
      (R : Round E W → Type 0) (b : Buffer E) (w : W)
      → IsValid b
      → (let w' = (reads_past_deadline env 0 b w).1 in ends b w ≡ true → R (finished b w'))
      → (let w' = (reads_past_deadline env 0 b w).1 in
          let batch = take b.batch_size b.queue in
          ends b w ≡ false
          → IsBatch batch b
          → IsFront batch b
          → R (after_send env (env.send batch w').0 batch b (env.send batch w').1))
      → R (round env b w)
  unfolding round attempt
  round-cases R b w v returns sends =
      if-cases R (ends b w) _ _ returns
        (λ h. sends h (take-IsBatch b v (ground arith)) (take-IsFront b))

  pub failure-cases :
      (R : Action × Buffer E × W → Type 0) (error : Error) (batch : List E) (b : Buffer E) (w : W)
      → (is_too_large (status_of (as_api_error error)) ≡ true
          → R (requeue, handle_too_large env batch (cleared b), w))
      → (is_too_large (status_of (as_api_error error)) ≡ false
          → drops_batch (as_api_error error) ≡ true
          → R (requeue, drop_batch (as_api_error error) batch (cleared b), w))
      → (is_too_large (status_of (as_api_error error)) ≡ false
          → drops_batch (as_api_error error) ≡ false
          → R (retry env (as_api_error error) (cleared b) w))
      → R (handle_failure env error batch b w)
  unfolding handle_failure
  failure-cases R error batch b w large drops retries =
      let e = as_api_error error in
      if-cases R (is_too_large (status_of e)) _ _ large
        (λ h. if-cases R (drops_batch e) _ _ (drops h) (retries h))

  -- The rule for an invariant of `flush`: what a delivery and the handling of a failure keep.
  module _ (P : Buffer E → Type 0)
      (on_accept : (batch : List E) (b : Buffer E)
        → b.stopped ≡ false
        → IsBatch batch b
        → IsFront batch b
        → P b
        → P (accept batch b))
      (on_failure : (error : Error) (batch : List E) (b : Buffer E) (w : W)
        → b.stopped ≡ false
        → IsBatch batch b
        → IsFront batch b
        → P b
        → P (handle_failure env error batch (note (rejected batch error) b) w).1) where
    after_send_invariant :
        (outcome : Option Error) (batch : List E) (b : Buffer E) (w : W)
        → b.stopped ≡ false
        → IsBatch batch b
        → IsFront batch b
        → P b
        → Leads P (after_send env outcome batch b w)
    unfolding after_send
    after_send_invariant none batch b w o t front p = on_accept batch b o t front p
    after_send_invariant (some error) batch b w o t front p =
        settle-Leads P (handle_failure env error batch (note (rejected batch error) b) w)
          (on_failure error batch b w o t front p)

    pub flush_invariant :
        (b : Buffer E) (w : W)
        → IsValid b
        → P (cancel_timer b)
        → Returns (λ (b', w'). IsValid b' × P b') (flush env b w)
    flush_invariant b w v p =
        flush-Returns env (λ b' w'. P b') (λ b' w'. P b')
          (λ b' w' v' p'.
            round-cases (Leads P) b' w' v' (λ h. p')
              (λ h t front. after_send_invariant _ _ b' _ (ground arith) t front p'))
          b w v p
