-- ===== src/Buffer/Drain.antt =====
-- intempt/_buffer.py: the loop of `flush`, and the methods that run it.
use intempt_python.Prelude.{
  ℕ, zero, suc, ◌+◌, ◌-◌, ◌*◌, Bool, true, false, ◌||◌, Option, none, some, List, [], ◌∷◌, ◌++◌,
  length, take, is_empty, leb, if◌then◌else◌,
}
use intempt_python.Errors.{Error}
use intempt_python.Buffer.State.{
  Buffer, Env, rejected, logged, batching_stopped, queue_full, gave_up, Action, requeue, stop,
  Round, finished, again, note, full_width, size, max_consecutive_failures,
}
use intempt_python.Buffer.Retry.{accept, handle_failure, reads_past_deadline}

module _ {E : Type 0} where
  unfoldable pub cancel_timer : Buffer E → Buffer E
  cancel_timer b = record b { timer = false }

  unfoldable pub schedule_flush : Buffer E → Buffer E
  schedule_flush b = if b.timer || b.stopped then b else record b { timer = true }

  -- What `close` does once `flush` has returned.
  unfoldable pub finish_close : Buffer E → Buffer E
  finish_close b =
      let remaining = size b in
      let b' : Buffer E =
        if is_empty b.queue then b else note (logged (gave_up b.close_budget remaining)) b in
      record b' { close_deadline = none; stopped = true; timer = false; exit_hook = false }

  -- A bound on the rounds that the loop of `flush` makes from a state: `Rounds` proves it.
  unfoldable pub rounds_left : Buffer E → ℕ
  rounds_left b =
      length b.queue * (full_width b + max_consecutive_failures + 1)
      + (max_consecutive_failures - b.consecutive_failures)
      + b.batch_size

module _ {E W : Type 0} where
  -- `if action == "requeue": continue`, else `return`
  abbrev pub settle : Action × Buffer E × W → Round E W
  settle (requeue, b, w) = again b w
  settle (stop, b, w) = finished b w

  -- The loop after one round: `next` is the rest of the loop.
  abbrev pub go_on : (Buffer E → W → Option (Buffer E × W)) → Round E W → Option (Buffer E × W)
  go_on next (finished b w) = some (b, w)
  go_on next (again b w) = next b w

  -- `none` comes only from `flush`.
  abbrev pub then_close : Option (Buffer E × W) → Option (Buffer E × W)
  then_close none = none
  then_close (some (b, w)) = some (finish_close b, w)

module _ {E W : Type 0} (env : Env E W) where
  -- What follows the call of `send`, by how it ended.
  unfoldable pub after_send : Option Error → List E → Buffer E → W → Round E W
  after_send none batch b w = again (accept batch b) w
  after_send (some error) batch b w =
      settle (handle_failure env error batch (note (rejected batch error) b) w)

  -- The call of `send`, and what follows.
  unfoldable pub attempt : List E → Buffer E → W → Round E W
  attempt batch b w = let (outcome, w') = env.send batch w in after_send outcome batch b w'

  -- One round of the loop in `flush`.
  unfoldable pub round : Buffer E → W → Round E W
  round b w =
      let (late, w') = reads_past_deadline env 0 b w in
      if late || (b.stopped || is_empty b.queue)
      then finished b w'
      else attempt (take b.batch_size b.queue) b w'

  -- The loop; `none` is for a fuel that runs out.
  unfoldable pub drain : ℕ → Buffer E → W → Option (Buffer E × W)
  drain zero b w = none
  drain (suc fuel) b w = go_on (drain fuel) (round b w)

  unfoldable pub flush : Buffer E → W → Option (Buffer E × W)
  flush b w = drain (rounds_left b + 1) (cancel_timer b) w

  -- What `enqueue` does after it let go of the lock.
  unfoldable pub flush_or_schedule : Bool → Buffer E → W → Option (Buffer E × W)
  flush_or_schedule true b w = flush b w
  flush_or_schedule false b w = some (schedule_flush b, w)

  unfoldable pub enqueue : E → Buffer E → W → Option (Buffer E × W)
  enqueue event b w =
      if b.stopped
      then some (note (logged (batching_stopped (env.name event))) b, w)
      else if leb b.options.max_queue (size b)
      then some (note (logged (queue_full (env.name event) b.options.max_queue)) b, w)
      else (let b' : Buffer E = record b { queue = b.queue ++ event ∷ [] } in
          flush_or_schedule (leb b.batch_size (size b')) b' w)

  -- `close`, whose `flush` waits for `_drain_lock` while another thread holds it; `wait` is what
  -- becomes of the buffer and of the world until then.
  unfoldable pub close_behind : (Buffer E → W → Buffer E × W) → Buffer E → W → Option (Buffer E × W)
  close_behind wait b w =
      let (now, w') = env.monotonic w in
      let (b', w'') = wait (record b { close_deadline = some (now + b.close_budget) }) w' in
      then_close (flush b' w'')

  -- `close` where no other thread holds `_drain_lock`.
  unfoldable pub close : Buffer E → W → Option (Buffer E × W)
  close b w =
      let (now, w') = env.monotonic w in
      then_close (flush (record b { close_deadline = some (now + b.close_budget) }) w')

  -- `_on_exit` and `_on_timer`; `flush` lets no exception of `send` out, so there is none to suppress.
  unfoldable pub on_exit : Buffer E → W → Option (Buffer E × W)
  on_exit b w = flush b w

  unfoldable pub on_timer : Buffer E → W → Option (Buffer E × W)
  on_timer b w = flush (record b { timer = false }) w
