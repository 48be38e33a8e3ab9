-- ===== src/Buffer/History.antt =====
-- The counters against the trace: each is a function of what `send` has answered so far, and the
-- circuit breaker is open exactly after five transient failures in a row.
use intempt_python.Prelude.{
  ℕ, suc, Bool, false, ◌&&◌, not, Option, List, [], ◌∷◌, ◌≡◌, ◌∙◌, refl, arith, if◌then◌else◌,
  Returns, leb, length,
}
use intempt_python.Errors.{ApiError, Error, as_api_error}
use intempt_python.Config.Options.{BatchOptions}
use intempt_python.Buffer.State.{
  Buffer, Env, Effect, delivered, rejected, slept, logged, note, new, max_consecutive_failures,
}
use intempt_python.Buffer.Retry.{
  accept, widen_if_earned, handle_too_large, drop_too_large, drop_batch, retry, back_off,
  handle_failure, is_too_large, status_of, drops_batch,
}
use intempt_python.Buffer.Drain.{flush, cancel_timer}
use intempt_python.Buffer.Valid.{IsValid}
use intempt_python.Buffer.Conserve.{gives_up, gives_up_large, gives_up_other}
use intempt_python.Buffer.Cases.{flush_invariant, failure-cases}

-- The failures that a retry may help: all but those that drop or halve the batch.
abbrev pub is_transient : Option ApiError → Bool
is_transient e = not (is_too_large (status_of e)) && not (drops_batch e)

-- One more where `hit`, and 0 where a batch was given up; a batch that is halved counts neither way.
abbrev counts : Bool → Bool → ℕ → ℕ
counts hit ends n = if hit then suc n else if ends then 0 else n

module _ {E : Type 0} where
  -- The transient failures since the last delivery or drop.
  abbrev pub failure_run : List (Effect E) → ℕ
  failure_run [] = 0
  failure_run (delivered batch ∷ xs) = 0
  failure_run (rejected batch error ∷ xs) =
      counts (is_transient (as_api_error error)) (gives_up (as_api_error error) (length batch))
        (failure_run xs)
  failure_run (slept ms ∷ xs) = failure_run xs
  failure_run (logged entry ∷ xs) = failure_run xs

  -- The single events dropped as too large since the last delivery.
  abbrev pub drop_run : List (Effect E) → ℕ
  drop_run [] = 0
  drop_run (delivered batch ∷ xs) = 0
  drop_run (rejected batch error ∷ xs) =
      counts (is_too_large (status_of (as_api_error error)) && leb (length batch) 1) false
        (drop_run xs)
  drop_run (slept ms ∷ xs) = drop_run xs
  drop_run (logged entry ∷ xs) = drop_run xs

  -- The counters of a buffer that has not been closed are those of its trace.
  pub record IsTallied (b : Buffer E) : Type 0 where
    pub failures : b.consecutive_failures ≡ failure_run b.effects
    pub drops : b.consecutive_drops ≡ drop_run b.effects
    pub breaker : b.stopped ≡ leb max_consecutive_failures (failure_run b.effects)

  pub new-IsTallied : (o : BatchOptions) (m budget : ℕ) → IsTallied (new o m budget)
  unfolding new
  new-IsTallied o m budget = record { failures = refl; drops = refl; breaker = refl }

  accept-IsTallied :
      (batch : List E) (b : Buffer E) → b.stopped ≡ false → IsTallied (accept batch b)
  unfolding accept widen_if_earned
  accept-IsTallied batch b h = ground arith

module _ {E W : Type 0} (env : Env E W) where
  handle_failure-IsTallied :
      (error : Error) (batch : List E) (b : Buffer E) (w : W)
      → b.stopped ≡ false
      → IsTallied b
      → IsTallied (handle_failure env error batch (note (rejected batch error) b) w).1
  handle_failure-IsTallied error batch b w o h =
      let e = as_api_error error in
      failure-cases env (λ r. IsTallied r.1) error batch (note (rejected batch error) b) w
        (λ large.
          let table = gives_up_large e (length batch) large in
          unfold handle_too_large drop_too_large in ground arith)
        (λ small drops.
          let table = gives_up_other e (length batch) small ∙ drops in
          unfold drop_batch in ground arith)
        (λ small keeps.
          let table = gives_up_other e (length batch) small ∙ keeps in
          unfold retry back_off in ground arith)

  -- From a valid state whose counters are those of its trace, `flush` returns in such a state, valid
  -- too: `_consecutive_failures` counts the transient failures since the last batch that was
  -- delivered or dropped, `_consecutive_drops` the events dropped as too large since the last
  -- delivery, and batching has stopped exactly if the first of them has reached five.
  pub flush-IsTallied :
      (b : Buffer E) (w : W)
      → IsValid b
      → IsTallied b
      → Returns (λ (b', w'). IsValid b' × IsTallied b') (flush env b w)
  flush-IsTallied b w v h =
      flush_invariant env IsTallied (λ batch b' o t front h'. accept-IsTallied batch b' o)
        (λ error batch b' w' o t front h'. handle_failure-IsTallied error batch b' w' o h') b w v
        (unfold cancel_timer in
          record { failures = h.failures; drops = h.drops; breaker = h.breaker })
