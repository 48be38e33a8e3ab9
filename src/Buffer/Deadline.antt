-- ===== src/Buffer/Deadline.antt =====
-- `close` is bounded: it ends within its budget and one call's time, or that time after another
-- thread has let go of `_drain_lock`.
use intempt_python.Prelude.{
  ℕ, ◌+◌, ◌*◌, ◌≤◌, Option, none, some, List, ◌≡◌, ◌∙◌, refl, arith, if-cases, Returns, leb, take,
  max,
}
use intempt_python.Errors.{ApiError, Error, as_api_error}
use intempt_python.Buffer.State.{Buffer, Env, Action, requeue, stop, Round, rejected, note}
use intempt_python.Buffer.Retry.{
  backoff_ms, retry, back_off, handle_failure, reads_past_deadline, handle_too_large,
  drop_too_large, drop_batch,
}
use intempt_python.Buffer.Drain.{
  settle, after_send, round, flush, cancel_timer, then_close, close_behind,
}
use intempt_python.Buffer.Valid.{IsValid}
use intempt_python.Buffer.Rounds.{cleared, Goes, flush-Returns}
use intempt_python.Buffer.Cases.{round-cases, failure-cases}
use intempt_python.Buffer.Frame.{accept-SameFrame}

-- How the outside spends time: reading the clock takes none, a call of `send` at most `limit` (the
-- transport has a timeout), and a sleep at most `limit` more than it was asked for.
pub record Timed {E W : Type 0} (env : Env E W) (limit : ℕ) : Type 0 where
  pub time : W → ℕ
  pub monotonic_reads : (w : W) → (env.monotonic w).0 ≡ time w
  pub monotonic_takes : (w : W) → time (env.monotonic w).1 ≡ time w
  pub send_takes : (batch : List E) (w : W) → time (env.send batch w).1 ≤ time w + limit
  pub sleep_takes : (d : ℕ) (w : W) → time (env.sleep d w) ≤ time w + d + limit

module _ {E W : Type 0} (env : Env E W) {limit : ℕ} (clock : Timed env limit) where
  open clock use {time}

  record InTime (d last : ℕ) (b : Buffer E) (w : W) : Type 0 where
    deadline : b.close_deadline ≡ some d
    order : d ≤ last
    now : time w ≤ last + limit

  abbrev Keeps : ℕ → ℕ → Round E W → Type 0
  Keeps d last = Goes (InTime d last) (InTime d last)

  read_takes :
      (d wait : ℕ) (b : Buffer E) (w : W)
      → b.close_deadline ≡ some d
      → (time (reads_past_deadline env wait b w).1 ≡ time w)
        × ((reads_past_deadline env wait b w).0 ≡ leb d (time w + wait))
  unfolding reads_past_deadline
  read_takes d wait b w h = rw h (clock.monotonic_takes w, rw clock.monotonic_reads refl)

  back_off_takes :
      (d last ms : ℕ) (b : Buffer E) (w : W)
      → InTime d last b w
      → InTime d last (back_off env ms b w).1 (back_off env ms b w).2
  unfolding back_off
  back_off_takes d last ms b w t =
      let (late, w') = reads_past_deadline env (ms * 1000) b w in
      let (same, exact) = read_takes d (ms * 1000) b w t.deadline in
      if-cases (λ (r : Action × Buffer E × W). InTime d last r.1 r.2) late _ _
        (λ h. record { deadline = t.deadline; order = t.order; now = omega (arith, same) })
        (λ h. record {
          deadline = t.deadline;
          order = t.order;
          now = ground (arith, same, exact, t.order, clock.sleep_takes (ms * 1000) w');
        })

  retry_takes :
      (d last : ℕ) (e : Option ApiError) (b : Buffer E) (w : W)
      → InTime d last b w
      → InTime d last (retry env e b w).1 (retry env e b w).2
  unfolding retry
  retry_takes d last e b w t =
      let b' : Buffer E = record b { consecutive_failures = b.consecutive_failures + 1 } in
      if-cases (λ (r : Action × Buffer E × W). InTime d last r.1 r.2)
        (leb 5 (b.consecutive_failures + 1)) _ _
        (λ h. record { deadline = t.deadline; order = t.order; now = t.now })
        (λ h.
          back_off_takes d last (backoff_ms e b') b' w
            (record { deadline = t.deadline; order = t.order; now = t.now }))

  settle_takes :
      (d last : ℕ) (r : Action × Buffer E × W) → InTime d last r.1 r.2 → Keeps d last (settle r)
  settle_takes d last (requeue, b, w) t = t
  settle_takes d last (stop, b, w) t = t

  handle_failure_takes :
      (d last : ℕ) (error : Error) (batch : List E) (b : Buffer E) (w : W)
      → InTime d last b w
      → InTime d last (handle_failure env error batch b w).1 (handle_failure env error batch b w).2
  handle_failure_takes d last error batch b w t =
      failure-cases env (λ r. InTime d last r.1 r.2) error batch b w
        (λ h. record {
          deadline = unfold handle_too_large drop_too_large in ground (arith, t.deadline);
          order = t.order;
          now = t.now;
        })
        (λ h k. record { deadline = unfold drop_batch in t.deadline; order = t.order; now = t.now })
        (λ h k.
          retry_takes d last (as_api_error error) (cleared b) w
            (record { deadline = t.deadline; order = t.order; now = t.now }))

  after_send_takes :
      (d last : ℕ) (outcome : Option Error) (batch : List E) (b : Buffer E) (w : W)
      → InTime d last b w
      → Keeps d last (after_send env outcome batch b w)
  unfolding after_send
  after_send_takes d last none batch b w t = record {
    deadline = (accept-SameFrame batch b).close_deadline ∙ t.deadline;
    order = t.order;
    now = t.now;
  }
  after_send_takes d last (some error) batch b w t =
      settle_takes d last (handle_failure env error batch (note (rejected batch error) b) w) (
        handle_failure_takes d last error batch (note (rejected batch error) b) w
          (record { deadline = t.deadline; order = t.order; now = t.now }))

  round_takes :
      (d last : ℕ) (b : Buffer E) (w : W)
      → IsValid b
      → InTime d last b w
      → Keeps d last (round env b w)
  round_takes d last b w v t =
      let (late, w') = reads_past_deadline env 0 b w in
      let (same, exact) = read_takes d 0 b w t.deadline in
      let batch = take b.batch_size b.queue in
      round-cases env (Keeps d last) b w v
        (λ h. record { deadline = t.deadline; order = t.order; now = omega (arith, same) })
        (λ h k front. after_send_takes d last _ batch b _ (record {
          deadline = t.deadline;
          order = t.order;
          now = ground (arith, same, exact, clock.send_takes batch w');
        }))

  -- The wait for `_drain_lock`: it ends, it takes at most `held`, and the thread that holds the lock
  -- leaves the buffer valid and the deadline as it is.
  pub record Waited (held : ℕ) (wait : Buffer E → W → Buffer E × W) : Type 0 where
    pub keeps_deadline : (b : Buffer E) (w : W) → (wait b w).0.close_deadline ≡ b.close_deadline
    pub keeps_valid : (b : Buffer E) (w : W) → IsValid b → IsValid (wait b w).0
    pub takes : (b : Buffer E) (w : W) → time (wait b w).1 ≤ time w + held

  -- Where a call of `send` takes at most `limit`, a sleep at most `limit` longer than asked, and
  -- reading the clock no time, `close` of a valid buffer returns, however the calls of `send` end and
  -- however much is queued. It does so at most `limit` after the later of two moments: the end of its
  -- budget, and `held` after it was called, where another thread holds `_drain_lock` for at most
  -- `held` more. That thread may be asleep in a back-off, so `held` may be longer than the budget.
  pub close_is_bounded :
      (held : ℕ) (wait : Buffer E → W → Buffer E × W) (b : Buffer E) (w : W)
      → Waited held wait
      → IsValid b
      → Returns
          (λ (b', w'). time w' ≤ time w + max b.close_budget held + limit)
          (close_behind env wait b w)
  unfolding close_behind
  close_is_bounded held wait b w free v =
      let (now, w') = env.monotonic w in
      let d = now + b.close_budget in
      let last = time w + max b.close_budget held in
      let b' : Buffer E = record b { close_deadline = some d } in
      let (b'', w'') = wait b' w' in
      closed (flush env b'' w'') (
        flush-Returns env (InTime d last) (InTime d last)
          (λ b3 w3 v' t. round_takes d last b3 w3 v' t) b'' w''
          (free.keeps_valid b' w' (omega arith))
          (unfold cancel_timer in
            record {
              deadline = free.keeps_deadline b' w';
              order = omega (arith, clock.monotonic_reads w);
              now = omega (arith, free.takes b' w', clock.monotonic_takes w);
            }))
    where
      closed :
          (r : Option (Buffer E × W))
          → Returns
              (λ (b3, w3).
                IsValid b3
                × InTime
                    ((env.monotonic w).0 + b.close_budget)
                    (time w + max b.close_budget held)
                    b3
                    w3)
              r
          → Returns (λ (b3, w3). time w3 ≤ time w + max b.close_budget held + limit) (then_close r)
      closed none p = p
      closed (some (b3, w3)) p = p.1.now
