-- ===== src/Buffer/Threads.antt =====
-- Producers, the timer and `close` beside the one thread that drains. `_drain_lock` lets one thread
-- run the loop of `flush`; it holds `_lock` only to slice the queue and to delete from it, so others
-- append while `send` runs and while a retry waits.
pub mod Safety
use intempt_python.Prelude.{
  ℕ, zero, suc, ◌≤◌, Bool, true, false, Option, none, some, List, [], ◌∷◌, ◌++◌, ◌≡◌, ◌∙◌, refl,
  arith, ap, sym, length, take, drop, is_empty, append-nil, append_assoc, length-append,
}
use intempt_python.Errors.{Error}
use intempt_python.Config.Options.{AreValid, BatchOptions}
use intempt_python.Buffer.State.{Buffer, Entry, Env, Effect, rejected, logged, note, new}
use intempt_python.Buffer.Retry.{accept, handle_failure}
use intempt_python.Buffer.Drain.{schedule_flush, cancel_timer, finish_close}
use intempt_python.Buffer.Valid.{IsValid, new-IsValid, accept-IsValid, handle_failure-IsValid}
use intempt_python.Buffer.Rounds.{IsBatch, take-IsBatch}
use intempt_python.Buffer.Cases.{IsFront, take-IsFront}
use intempt_python.Buffer.Conserve.{handed, handed-logged, handed-accept, handed-handle_failure}
use intempt_python.Buffer.Close.{finish_close-IsValid, handed-finish_close}
use intempt_python.Buffer.Producer.{refuses, appended, appended-IsValid, handed-appended}

-- The object, and the batch that the draining thread has sliced and not yet settled.
pub record Shared (E : Type 0) : Type 0 where
  pub buffer : Buffer E
  pub in_flight : Option (List E)

module _ {E W : Type 0} (env : Env E W) where
  -- One step of some thread; `new` are the events that it puts in. The draining thread slices, and
  -- later settles what it sliced; the other steps come at any time between.
  pub data Step (s : Shared E) (new : List E) (t : Shared E) : Type 0 where
    slice :
        s.in_flight ≡ none
        → s.buffer.stopped ≡ false
        → is_empty s.buffer.queue ≡ false
        → new ≡ []
        → t ≡ record s { in_flight = some (take s.buffer.batch_size s.buffer.queue) }
        → Step s new t
    deliver :
        (batch : List E)
        → s.in_flight ≡ some batch
        → new ≡ []
        → t ≡ record { buffer = accept batch s.buffer; in_flight = none }
        → Step s new t
    fail :
        (batch : List E) (error : Error) (w : W)
        → s.in_flight ≡ some batch
        → new ≡ []
        → t ≡ record {
          buffer = (handle_failure env error batch (note (rejected batch error) s.buffer) w).1;
          in_flight = none;
        }
        → Step s new t
    put :
        (event : E)
        → refuses s.buffer ≡ false
        → new ≡ event ∷ []
        → t ≡ record s { buffer = appended event s.buffer }
        → Step s new t
    refuse :
        (entry : Entry)
        → refuses s.buffer ≡ true
        → new ≡ []
        → t ≡ record s { buffer = note (logged entry) s.buffer }
        → Step s new t
    schedule : new ≡ [] → t ≡ record s { buffer = schedule_flush s.buffer } → Step s new t
    cancel : new ≡ [] → t ≡ record s { buffer = cancel_timer s.buffer } → Step s new t
    set_deadline :
        (deadline : Option ℕ)
        → new ≡ []
        → t ≡ record s { buffer = record s.buffer { close_deadline = deadline } }
        → Step s new t
    finish : new ≡ [] → t ≡ record s { buffer = finish_close s.buffer } → Step s new t

  -- A run of the threads; `all` are the events put in, in order.
  pub data Reach (s : Shared E) : List E → Shared E → Type 0 where
    here : Reach s [] s
    next :
        {t u : Shared E} {old new all : List E}
        → Reach s old t
        → Step t new u
        → all ≡ old ++ new
        → Reach s all u
