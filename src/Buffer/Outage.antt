-- ===== src/Buffer/Outage.antt =====
-- A server that never answers well: what `flush` does before it gives up.
use intempt_python.Prelude.{
  ℕ, zero, suc, ◌+◌, ◌<◌, true, false, none, some, List, [], ◌∷◌, ◌++◌, ◌≡◌, ◌≢◌, refl, arith,
  if-cases, Returns, leb, take, ap, ◌∙◌,
}
use native.Mathlib.Numerals.{add-one}
use intempt_python.Errors.{Error, as_api_error}
use intempt_python.Buffer.State.{
  Buffer, Env, Effect, delivered, rejected, slept, logged, Round, note,
}
use intempt_python.Buffer.Retry.{retry, back_off, handle_failure, reads_past_deadline}
use intempt_python.Buffer.Drain.{settle, after_send, round, flush, cancel_timer}
use intempt_python.Buffer.Valid.{IsValid}
use intempt_python.Buffer.Rounds.{cleared, Goes, flush-Returns}
use intempt_python.Buffer.Cases.{round-cases, failure-cases}
use intempt_python.Buffer.History.{is_transient}

module _ {E : Type 0} where
  -- The batches that were sent, the latest first, whatever came of them.
  abbrev pub attempts : List (Effect E) → List (List E)
  attempts [] = []
  attempts (delivered batch ∷ xs) = batch ∷ attempts xs
  attempts (rejected batch error ∷ xs) = batch ∷ attempts xs
  attempts (slept ms ∷ xs) = attempts xs
  attempts (logged entry ∷ xs) = attempts xs

  abbrev pub repeat : ℕ → List E → List (List E)
  repeat zero batch = []
  repeat (suc n) batch = batch ∷ repeat n batch

  -- The batcher has stopped, with the queue as it was, after five sends of the first batch.
  pub record GaveUp (b₀ b : Buffer E) : Type 0 where
    pub stopped : b.stopped ≡ true
    pub queue : b.queue ≡ b₀.queue
    pub sent : attempts b.effects ≡ repeat 5 (take b₀.batch_size b₀.queue) ++ attempts b₀.effects

module _ {E W : Type 0} (env : Env E W) where
  -- Every call of `send` raises, and no retry is ruled out by what it raises.
  abbrev pub IsDown : Type 0
  IsDown =
      (batch : List E) (w : W)
      → (error : Error) × ((env.send batch w).0 ≡ some error)
        × (is_transient (as_api_error error) ≡ true)

  -- The first batch has been sent once for each failure, and everything is still there.
  record Fails (b₀ b : Buffer E) : Type 0 where
    open_ : b.stopped ≡ false
    queue : b.queue ≡ b₀.queue
    width : b.batch_size ≡ b₀.batch_size
    deadline : b.close_deadline ≡ none
    few : b.consecutive_failures < 5
    sent :
        attempts b.effects
        ≡ repeat b.consecutive_failures (take b₀.batch_size b₀.queue) ++ attempts b₀.effects

  abbrev Trips : Buffer E → Round E W → Type 0
  Trips b₀ = Goes (λ b w. Fails b₀ b) (λ b w. GaveUp b₀ b)

  -- The state after the failure is counted.
  abbrev counted : Error → Buffer E → Buffer E
  counted error b = record (cleared (note (rejected (take b.batch_size b.queue) error) b)) {
    consecutive_failures = b.consecutive_failures + 1;
  }

  sent_again :
      (b₀ b : Buffer E)
      → Fails b₀ b
      → take b.batch_size b.queue ∷ attempts b.effects
        ≡ repeat (b.consecutive_failures + 1) (take b₀.batch_size b₀.queue) ++ attempts b₀.effects
  sent_again b₀ b f = rw (add-one, f.sent, f.queue, f.width) refl

  sent_five :
      (b₀ b : Buffer E)
      → Fails b₀ b
      → b.consecutive_failures + 1 ≡ 5
      → take b.batch_size b.queue ∷ attempts b.effects
        ≡ repeat 5 (take b₀.batch_size b₀.queue) ++ attempts b₀.effects
  sent_five b₀ b f five =
      sent_again b₀ b f
      ∙ ap (λ n. repeat n (take b₀.batch_size b₀.queue) ++ attempts b₀.effects) five

  -- With no deadline set, the wait is always made.
  back_off-Trips :
      (b₀ b : Buffer E) (error : Error) (ms : ℕ) (w : W)
      → Fails b₀ b
      → leb 5 (b.consecutive_failures + 1) ≡ false
      → Trips b₀ (settle (back_off env ms (counted error b) w))
  unfolding back_off reads_past_deadline
  back_off-Trips b₀ b error ms w f h = rw f.deadline (record {
    open_ = f.open_;
    queue = f.queue;
    width = f.width;
    deadline = refl;
    few = ground arith;
    sent = sent_again b₀ b f;
  })

  retry-Trips :
      (b₀ b : Buffer E) (error : Error) (w : W)
      → Fails b₀ b
      → Trips b₀ (
          settle (
            retry env
              (as_api_error error)
              (cleared (note (rejected (take b.batch_size b.queue) error) b))
              w))
  unfolding retry
  retry-Trips b₀ b error w f =
      if-cases (λ r. Trips b₀ (settle r)) (leb 5 (b.consecutive_failures + 1)) _ _
        (λ h. record { stopped = refl; queue = f.queue; sent = sent_five b₀ b f (ground arith) })
        (λ h. back_off-Trips b₀ b error _ w f h)

  failure-Trips :
      (b₀ b : Buffer E) (error : Error) (w : W)
      → is_transient (as_api_error error) ≡ true
      → Fails b₀ b
      → Trips b₀ (
          settle (
            handle_failure env error
              (take b.batch_size b.queue)
              (note (rejected (take b.batch_size b.queue) error) b)
              w))
  failure-Trips b₀ b error w tr f =
      failure-cases env (λ r. Trips b₀ (settle r)) error (take b.batch_size b.queue) _ w
        (λ h. absurd (ground arith)) (λ h k. absurd (ground arith))
        (λ h k. retry-Trips b₀ b error w f)

  round-Trips :
      (b₀ b : Buffer E) (w : W)
      → IsDown
      → b₀.queue ≢ []
      → IsValid b
      → Fails b₀ b
      → Trips b₀ (round env b w)
  round-Trips b₀ b w down ne v f =
      round-cases env (Trips b₀) b w v (λ h. absurd (unfold reads_past_deadline in ground arith))
        (λ h t front.
          let batch = take b.batch_size b.queue in
          let w' = (reads_past_deadline env 0 b w).1 in
          let (error, raised, tr) = down batch w' in
          rw raised (unfold after_send in failure-Trips b₀ b error _ tr f))

  -- Where every call of `send` raises something transient (a 5xx, 408, 429, a timeout, or an exception
  -- that is no `IntemptApiError`), `flush` from a valid state with events queued, no failure counted,
  -- no deadline set and batching not stopped sends the first batch exactly five times and nothing
  -- else, stops batching and leaves the queue as it was.
  pub flush_gives_up :
      (b : Buffer E) (w : W)
      → IsDown
      → IsValid b
      → b.queue ≢ []
      → b.stopped ≡ false
      → b.close_deadline ≡ none
      → b.consecutive_failures ≡ 0
      → Returns (λ (b', w'). IsValid b' × GaveUp b b') (flush env b w)
  flush_gives_up b w down v ne o d c =
      flush-Returns env (λ b' w'. Fails b b') (λ b' w'. GaveUp b b')
        (λ b' w' v' f. round-Trips b b' w' down ne v' f) b w v
        (unfold cancel_timer in
          record {
            open_ = o;
            queue = refl;
            width = refl;
            deadline = d;
            few = omega arith;
            sent = rw c;
          })
