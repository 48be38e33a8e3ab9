-- ===== src/Buffer/Rounds.antt =====
-- The loop of `flush` ends: every round that goes on lowers `rounds_left`. The rule for proofs
-- about the loop.
use intempt_python.Prelude.{
  ℕ, zero, suc, ◌+◌, ◌*◌, ◌≤◌, ◌<◌, false, ◌||◌, Option, none, some, List, ◌≡◌, refl, if-cases,
  arith, length, take, is_empty, length-drop, length-take, length_pos_of_not_empty, Returns,
}
use intempt_python.Errors.{ApiError, Error, as_api_error}
use intempt_python.Buffer.State.{
  Buffer, Env, Effect, Action, requeue, stop, Round, finished, again, full_width, rejected, note,
}
use intempt_python.Buffer.Retry.{
  widen_if_earned, accept, drop_too_large, handle_too_large, drop_batch, back_off, retry,
  handle_failure, reads_past_deadline,
}
use intempt_python.Buffer.Drain.{
  rounds_left, go_on, settle, after_send, attempt, round, drain, flush, cancel_timer,
}
use intempt_python.Buffer.Valid.{IsValid, accept-IsValid, handle_failure-IsValid}

times_lt : (m n k : ℕ) → m < n → m * k + k ≤ n * k
times_lt m n k h = grind arith

module _ {E : Type 0} where
  -- A shorter queue pays for any width and any number of failures.
  fewer_rounds :
      (b b' : Buffer E)
      → full_width b' ≡ full_width b
      → b'.batch_size ≤ full_width b
      → length b'.queue < length b.queue
      → rounds_left b' < rounds_left b
  unfolding rounds_left
  fewer_rounds b b' e h k =
      rw e (omega (arith, times_lt (length b'.queue) (length b.queue) (full_width b + 5 + 1) k))

  -- The batch that a round takes: not empty, and no longer than the width.
  pub record IsBatch (batch : List E) (b : Buffer E) : Type 0 where
    pub pos : 1 ≤ length batch
    pub length-le-width : length batch ≤ b.batch_size
    pub length-le-size : length batch ≤ length b.queue

  pub take-IsBatch :
      (b : Buffer E) → IsValid b → is_empty b.queue ≡ false → IsBatch (take b.batch_size b.queue) b
  take-IsBatch b v h =
      omega (arith, length-take b.batch_size b.queue, length_pos_of_not_empty b.queue h)

  noted_rounds : (x : Effect E) (b : Buffer E) → rounds_left (note x b) ≡ rounds_left b
  unfolding rounds_left
  noted_rounds x b = refl

  accept_rounds :
      (batch : List E) (b : Buffer E)
      → IsBatch batch b
      → IsValid b
      → rounds_left (accept batch b) < rounds_left b
  accept_rounds batch b t v =
      fewer_rounds b (accept batch b) (unfold accept widen_if_earned in ground arith)
        (unfold accept widen_if_earned in ground arith)
        (unfold accept widen_if_earned in ground (arith, length-drop (length batch) b.queue))

  drop_batch_rounds :
      (e : Option ApiError) (batch : List E) (b : Buffer E)
      → IsBatch batch b
      → IsValid b
      → rounds_left (drop_batch e batch b) < rounds_left b
  drop_batch_rounds e batch b t v =
      fewer_rounds b (drop_batch e batch b) (unfold drop_batch in ground arith)
        (unfold drop_batch in ground arith)
        (unfold drop_batch in ground (arith, length-drop (length batch) b.queue))

  -- `_handle_failure` ends the run of successes first, which changes no bound.
  abbrev pub cleared : Buffer E → Buffer E
  cleared b = record b { consecutive_successes = 0 }

  cleared_rounds : (b : Buffer E) → rounds_left (cleared b) ≡ rounds_left b
  unfolding rounds_left
  cleared_rounds b = refl

  cleared-IsValid : (b : Buffer E) → IsValid b → IsValid (cleared b)
  cleared-IsValid b v = omega arith

  cleared-IsBatch : (batch : List E) (b : Buffer E) → IsBatch batch b → IsBatch batch (cleared b)
  cleared-IsBatch batch b t = omega arith

  -- What holds of the state after a round, by how the round ended.
  abbrev pub Progresses : {W : Type 0} → Buffer E → Round E W → Type 0
  Progresses b (finished b' w) = IsValid b'
  Progresses b (again b' w) = IsValid b' × (rounds_left b' < rounds_left b)

  -- `P` holds where the loop goes on, and `Q` where it has returned.
  abbrev pub Goes : {W : Type 0} → (P Q : Buffer E → W → Type 0) → Round E W → Type 0
  Goes P Q (finished b w) = Q b w
  Goes P Q (again b w) = P b w

module _ {E W : Type 0} (env : Env E W) where
  drop_too_large_rounds :
      (batch : List E) (b : Buffer E)
      → IsBatch batch b
      → IsValid b
      → rounds_left (drop_too_large env batch b) < rounds_left b
  drop_too_large_rounds batch b t v =
      fewer_rounds b (drop_too_large env batch b) (unfold drop_too_large in ground arith)
        (unfold drop_too_large in ground arith)
        (unfold drop_too_large in ground (arith, length-drop 1 b.queue))

  handle_too_large_rounds :
      (batch : List E) (b : Buffer E)
      → IsBatch batch b
      → IsValid b
      → rounds_left (handle_too_large env batch b) < rounds_left b
  unfolding handle_too_large rounds_left
  handle_too_large_rounds batch b t v = ground (arith, drop_too_large_rounds batch b t v)

  retry_rounds :
      (e : Option ApiError) (b : Buffer E) (w : W)
      → (retry env e b w).0 ≡ requeue
      → rounds_left (retry env e b w).1 < rounds_left b
  unfolding retry back_off rounds_left
  retry_rounds e b w h = ground arith

  handle_failure_rounds :
      (error : Error) (batch : List E) (b : Buffer E) (w : W)
      → IsBatch batch b
      → IsValid b
      → (handle_failure env error batch b w).0 ≡ requeue
      → rounds_left (handle_failure env error batch b w).1 < rounds_left b
  unfolding handle_failure
  handle_failure_rounds error batch b w t v h =
      let e = as_api_error error in
      let v' = cleared-IsValid b v in
      let t' = cleared-IsBatch batch b t in
      ground (
        arith,
        cleared_rounds b,
        handle_too_large_rounds batch (cleared b) t' v',
        drop_batch_rounds e batch (cleared b) t' v',
        retry_rounds e (cleared b) w,
      )

  settle-Progresses :
      (b : Buffer E) (r : Action × Buffer E × W)
      → IsValid r.1
      → (r.0 ≡ requeue → rounds_left r.1 < rounds_left b)
      → Progresses b (settle r)
  settle-Progresses b (requeue, b', w) v k = (v, k refl)
  settle-Progresses b (stop, b', w) v k = v

  after_send-Progresses :
      (outcome : Option Error) (batch : List E) (b : Buffer E) (w : W)
      → IsBatch batch b
      → IsValid b
      → Progresses b (after_send env outcome batch b w)
  unfolding after_send
  after_send-Progresses none batch b w t v = (accept-IsValid batch b v, accept_rounds batch b t v)
  after_send-Progresses (some error) batch b w t v =
      let b' : Buffer E = note (rejected batch error) b in
      let v' : IsValid b' = omega arith in
      let t' : IsBatch batch b' = omega arith in
      settle-Progresses b (handle_failure env error batch b' w)
        (handle_failure-IsValid env error batch b' w t.length-le-width v')
        (λ h.
          rw (← noted_rounds (rejected batch error) b)
            (handle_failure_rounds error batch b' w t' v' h))

  pub round-Progresses : (b : Buffer E) (w : W) → IsValid b → Progresses b (round env b w)
  unfolding round attempt
  round-Progresses b w v =
      let (late, w') = reads_past_deadline env 0 b w in
      let batch = take b.batch_size b.queue in
      let (outcome, w'') = env.send batch w' in
      if-cases (Progresses b) (late || (b.stopped || is_empty b.queue)) (finished b w')
        (after_send env outcome batch b w'') (λ _. v)
        (λ h. after_send-Progresses outcome batch b w'' (take-IsBatch b v (ground arith)) v)

  after_round :
      (P Q : Buffer E → W → Type 0) (fuel : ℕ) (b : Buffer E) (r : Round E W)
      → rounds_left b ≤ fuel
      → Progresses b r
      → Goes P Q r
      → ((b' : Buffer E) (w' : W)
          → rounds_left b' < fuel
          → IsValid b'
          → P b' w'
          → Returns (λ (b'', w''). IsValid b'' × Q b'' w'') (drain env fuel b' w'))
      → Returns (λ (b'', w''). IsValid b'' × Q b'' w'') (go_on (drain env fuel) r)
  after_round P Q fuel b (finished b' w') k v q rest = (v, q)
  after_round P Q fuel b (again b' w') k v p rest = rest b' w' (omega arith) v.0 p

  -- The rule for the loop: `P` holds at the top of every round, `Q` wherever a round returns.
  pub drain-Returns :
      (P Q : Buffer E → W → Type 0)
      → ((b : Buffer E) (w : W) → IsValid b → P b w → Goes P Q (round env b w))
      → (fuel : ℕ) (b : Buffer E) (w : W) → rounds_left b < fuel
      → IsValid b
      → P b w
      → Returns (λ (b', w'). IsValid b' × Q b' w') (drain env fuel b w)
  unfolding drain
  drain-Returns P Q keep zero b w k v p = absurd (omega arith)
  drain-Returns P Q keep (suc fuel) b w k v p =
      after_round P Q fuel b (round env b w) (omega arith) (round-Progresses b w v) (keep b w v p)
        (drain-Returns P Q keep fuel)

  -- The same for `flush`, from the state in which the timer is cancelled.
  pub flush-Returns :
      (P Q : Buffer E → W → Type 0)
      → ((b : Buffer E) (w : W) → IsValid b → P b w → Goes P Q (round env b w))
      → (b : Buffer E) (w : W) → IsValid b
      → P (cancel_timer b) w
      → Returns (λ (b', w'). IsValid b' × Q b' w') (flush env b w)
  unfolding flush
  flush-Returns P Q keep b w v p =
      drain-Returns P Q keep (rounds_left b + 1) (cancel_timer b) w
        (unfold cancel_timer rounds_left in omega arith) (unfold cancel_timer in omega arith) p
