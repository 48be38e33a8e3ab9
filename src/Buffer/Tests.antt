-- ===== src/Buffer/Tests.antt =====
-- Runs of the buffer against a scripted server, and the theorems at concrete inputs.
use intempt_python.Prelude.{
  ℕ, suc, ◌+◌, ◌≤◌, ◌<◌, true, false, Option, none, some, List, [], ◌∷◌, ◌++◌, ◌≡◌, refl, arith,
  length, drop, All, Returns, ◌*◌, ◌/◌, ◌⊎◌, inr,
}
use intempt_python.Errors.{Error, api_error, retryable}
use intempt_python.Config.Options.{BatchOptions}
use intempt_python.Buffer.State.{
  Buffer, Env, delivered, rejected, logged, requeue, retrying, reducing, dropping_event, new,
  full_width, note, slept,
}
use intempt_python.Buffer.Retry.{
  accept, widen_if_earned, drop_too_large, handle_too_large, drop_batch, back_off, backoff_ms,
  retry, handle_failure, reads_past_deadline,
}
use intempt_python.Buffer.Drain.{
  rounds_left, cancel_timer, after_send, attempt, round, drain, flush, enqueue, close, close_behind,
  on_timer,
}
use intempt_python.Buffer.Valid.{IsValid}
use intempt_python.Buffer.Conserve.{handed, flush-conserves}
use intempt_python.Buffer.Drained.{flush_drains}
use intempt_python.Buffer.Producer.{IsLive, enqueue-conserves, events_stay_scheduled}
use intempt_python.Buffer.Waits.{InBounds, flush_waits-InBounds}
use intempt_python.Buffer.History.{IsTallied, flush-IsTallied}
use intempt_python.Buffer.Outage.{IsDown, GaveUp, flush_gives_up}
use intempt_python.Buffer.Width.{filled_sends, too_large_width, width_recovers}
use intempt_python.Buffer.Close.{IsClosed, close-conserves}
use intempt_python.Buffer.Deadline.{Timed, Waited, close_is_bounded}
use intempt_python.Buffer.Threads.{Shared, put, slice, deliver, Reach, here, next}
use intempt_python.Buffer.Threads.Safety.{interleavings_conserve}

-- A server that answers by a script and then accepts all, and a clock that only sleeping moves.
record World : Type 0 where
  script : List (Option Error)
  clock : ℕ

abbrev answer : List (Option Error) → Option Error
answer [] = none
answer (a ∷ rest) = a

abbrev later : List (Option Error) → List (Option Error)
later [] = []
later (a ∷ rest) = rest

abbrev scripted : Env ℕ World
scripted = record {
  send = λ batch w. (answer w.script, record w { script = later w.script });
  monotonic = λ w. (w.clock, w);
  sleep = λ d w. record w { clock = w.clock + d };
  name = λ e. some "event";
}

abbrev status_error : ℕ → Error
status_error status =
    api_error
      (record { message = "refused"; status = some status; body = none; retry_after_ms = none })

-- The server that is always down.
abbrev dead : Env ℕ ℕ
dead = record {
  send = λ batch w. (some (status_error 503), w);
  monotonic = λ w. (w, w);
  sleep = λ d w. w + d;
  name = λ e. none;
}

abbrev options : BatchOptions
options = record { size = 4; flush_ms = 5000; max_queue = 10; flush_on_exit = false }

abbrev empty : Buffer ℕ
empty = record {
  options = options;
  max_request_events = 50;
  close_budget = 30000000;
  queue = [];
  batch_size = 4;
  consecutive_failures = 0;
  consecutive_successes = 0;
  consecutive_drops = 0;
  stopped = false;
  close_deadline = none;
  timer = false;
  exit_hook = false;
  effects = [];
}

abbrev filled : Buffer ℕ
filled = record empty { queue = 1 ∷ 2 ∷ 3 ∷ []; timer = true }

new_is_empty : new options 50 30000000 ≡ empty
unfolding new
new_is_empty = refl

filled-IsValid : IsValid filled
filled-IsValid = omega arith

-- A 413 halves the width: 1 goes alone, and the next 413 drops 2.
abbrev rough : World
rough = record {
  script = some (status_error 413) ∷ none ∷ some (status_error 413) ∷ some (status_error 503) ∷ [];
  clock = 0;
}

flush-rough :
    flush scripted filled rough
    ≡ some (
      record empty {
        effects =
            delivered (3 ∷ [])
            ∷ slept 10000
            ∷ logged (retrying 10000)
            ∷ rejected (3 ∷ []) (status_error 503)
            ∷ logged (dropping_event (some "event"))
            ∷ rejected (2 ∷ []) (status_error 413)
            ∷ delivered (1 ∷ [])
            ∷ logged (reducing 1)
            ∷ rejected (1 ∷ 2 ∷ 3 ∷ []) (status_error 413)
            ∷ [];
      },
      record { script = []; clock = 10000000 },
    )
unfolding flush drain round attempt after_send accept widen_if_earned handle_failure
    handle_too_large drop_too_large drop_batch retry back_off backoff_ms reads_past_deadline
    rounds_left cancel_timer retryable
flush-rough = refl

flush-conserves_example :
    Returns (λ (b', w'). IsValid b' × (handed b' ≡ handed filled)) (flush scripted filled rough)
flush-conserves_example = flush-conserves scripted filled rough filled-IsValid

flush_drains_example :
    Returns
      (λ (b', w').
        IsValid b' × ((b'.close_deadline ≡ none) × ((b'.stopped ≡ true) ⊎ (b'.queue ≡ []))))
      (flush scripted filled rough)
flush_drains_example = flush_drains scripted filled rough filled-IsValid refl

enqueue-conserves_example :
    Returns
      (λ (b', w'). IsValid b' × (handed b' ≡ handed filled ++ 4 ∷ []))
      (enqueue scripted 4 filled rough)
enqueue-conserves_example = enqueue-conserves scripted 4 filled rough filled-IsValid

filled-IsLive : IsLive filled
filled-IsLive = record { deadline = refl; scheduled = inr (inr refl) }

events_stay_scheduled_example :
    Returns (λ (b', w'). IsLive b') (enqueue scripted 4 filled rough)
    × Returns (λ (b', w'). IsLive b') (on_timer scripted filled rough)
events_stay_scheduled_example =
    events_stay_scheduled scripted 4 filled rough filled-IsValid filled-IsLive

flush_waits-InBounds_example :
    Returns (λ (b', w'). IsValid b' × All InBounds b'.effects) (flush scripted filled rough)
flush_waits-InBounds_example = flush_waits-InBounds scripted filled rough filled-IsValid tt

flush-IsTallied_example :
    Returns (λ (b', w'). IsValid b' × IsTallied b') (flush scripted filled rough)
flush-IsTallied_example =
    flush-IsTallied scripted filled rough filled-IsValid
      (record { failures = refl; drops = refl; breaker = refl })

dead-IsDown : IsDown dead
unfolding retryable
dead-IsDown batch w = (status_error 503, refl, refl)

flush_gives_up_example : Returns (λ (b', w'). IsValid b' × GaveUp filled b') (flush dead filled 0)
flush_gives_up_example =
    flush_gives_up dead filled 0 dead-IsDown filled-IsValid (λ e. cc) refl refl refl

too_large_width_example :
    let (action, b', w') =
      handle_failure scripted (status_error 413) (1 ∷ 2 ∷ 3 ∷ []) filled rough in
    (action ≡ requeue)
    × (w' ≡ rough)
    × (1 < 3
        → (b' ≡ record filled {
          batch_size = 3 / 2;
          consecutive_successes = 0;
          effects = logged (reducing (3 / 2)) ∷ filled.effects;
        })
          × (1 ≤ b'.batch_size)
          × (b'.batch_size < 3)
          × (b'.batch_size < 4))
    × (◌≡◌ {A = ℕ} 3 1
        → (b' ≡ record filled {
          queue = drop 1 filled.queue;
          batch_size = full_width filled;
          consecutive_failures = 0;
          consecutive_successes = 0;
          consecutive_drops = 1;
          effects = b'.effects;
        })
          × (suc (length b'.queue) ≡ 3))
too_large_width_example =
    too_large_width scripted (status_error 413) (1 ∷ 2 ∷ 3 ∷ []) filled rough refl (omega arith)

abbrev halved : Buffer ℕ
halved = record filled { batch_size = 1 }

width_recovers_example : (filled_sends (2 * 10 + 0) halved).batch_size ≡ full_width halved
width_recovers_example = width_recovers 2 0 halved (omega arith) refl (omega arith)

close-conserves_example :
    Returns
      (λ (b', w'). IsValid b' × (IsClosed b' × (handed b' ≡ handed filled)))
      (close dead filled 0)
close-conserves_example = close-conserves dead filled 0 filled-IsValid

abbrev dead_clock : Timed dead 0
dead_clock = record {
  time = λ w. w;
  monotonic_reads = λ w. refl;
  monotonic_takes = λ w. refl;
  send_takes = λ batch w. omega arith;
  sleep_takes = λ d w. omega arith;
}

-- The timer's thread is in a back-off of 64 seconds, more than the budget, while `close` waits.
abbrev sleeper : Buffer ℕ → ℕ → Buffer ℕ × ℕ
sleeper b w = (note (slept 64000) b, w + 64000000)

sleeper-Waited : Waited dead dead_clock 64000000 sleeper
sleeper-Waited = record {
  keeps_deadline = λ b w. refl;
  keeps_valid = λ b w v. omega arith;
  takes = λ b w. omega arith;
}

close_is_bounded_example :
    Returns (λ (b', w'). w' ≤ 7 + 64000000 + 0) (close_behind dead sleeper filled 7)
close_is_bounded_example =
    close_is_bounded dead dead_clock 64000000 sleeper filled 7 sleeper-Waited filled-IsValid

-- Two events are put in, the first is sent, and the second comes while it is on its way.
abbrev between : Shared ℕ
between = record {
  buffer = accept (1 ∷ []) (record empty { queue = 1 ∷ 2 ∷ [] });
  in_flight = none;
}

between-Reach :
    Reach dead (record { buffer = new options 50 30000000; in_flight = none }) (1 ∷ 2 ∷ []) between
unfolding new
between-Reach =
    next
      (next (next (next here (put 1 refl refl refl) refl) (slice refl refl refl refl refl) refl)
        (put 2 refl refl refl) refl)
      (deliver (1 ∷ []) refl refl refl) refl

interleavings_conserve_example : IsValid between.buffer × (handed between.buffer ≡ 1 ∷ 2 ∷ [])
interleavings_conserve_example =
    interleavings_conserve dead options 50 30000000 (omega arith) (omega arith) between-Reach
