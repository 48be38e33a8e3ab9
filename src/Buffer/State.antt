-- ===== src/Buffer/State.antt =====
-- intempt/_buffer.py: the attributes of a `Buffer`, its constants, and what it calls.
use intempt_python.Prelude.{
  ℕ, ◌*◌, min, String, Bool, false, Option, none, List, [], ◌∷◌, length, drop,
}
use intempt_python.Errors.{Error}
use intempt_python.Config.Options.{BatchOptions}

abbrev pub max_retry_interval_ms : ℕ
max_retry_interval_ms = 10 * 60 * 1000

abbrev pub min_retry_interval_ms : ℕ
min_retry_interval_ms = 100

abbrev pub max_consecutive_failures : ℕ
max_consecutive_failures = 5

abbrev pub drops_before_warning : ℕ
drops_before_warning = 3

abbrev pub successes_before_widening : ℕ
successes_before_widening = 10

-- In microseconds, as every clock reading and every wait is.
abbrev pub close_drain_budget : ℕ
close_drain_budget = 30 * 1000 * 1000

-- A call of the logger: its message, by a constructor, and the values it prints.
pub data Entry : Type 0 where
  batching_stopped : Option String → Entry
  queue_full : Option String → ℕ → Entry
  dropping_batch : Option ℕ → Option String → ℕ → Entry
  stopping : ℕ → ℕ → Entry
  retrying : ℕ → Entry
  reducing : ℕ → Entry
  dropping_event : Option String → Entry
  many_drops : ℕ → Entry
  gave_up : ℕ → ℕ → Entry

-- What the buffer does to the outside: a call of `send` with the batch and how it ended, a wait in
-- milliseconds, a call of the logger.
pub data Effect (E : Type 0) : Type 0 where
  delivered : List E → Effect E
  rejected : List E → Error → Effect E
  slept : ℕ → Effect E
  logged : Entry → Effect E

-- The attributes of a `Buffer`. `timer` and `exit_hook` say whether the attribute is set.
-- `effects` is no attribute: it is the trace of what the object has done, the latest first.
pub record Buffer (E : Type 0) : Type 0 where
  pub options : BatchOptions
  pub max_request_events : ℕ
  pub close_budget : ℕ
  pub queue : List E
  pub batch_size : ℕ
  pub consecutive_failures : ℕ
  pub consecutive_successes : ℕ
  pub consecutive_drops : ℕ
  pub stopped : Bool
  pub close_deadline : Option ℕ
  pub timer : Bool
  pub exit_hook : Bool
  pub effects : List (Effect E)

-- What the buffer calls and does not implement, over a state `W` of everything outside: the `send`
-- callback (`none` is a return, `some` the exception raised), `time.monotonic`, the `sleep`
-- argument, and the `event.get("name")` of an event.
pub record Env (E W : Type 0) : Type 0 where
  pub send : List E → W → Option Error × W
  pub monotonic : W → ℕ × W
  pub sleep : ℕ → W → W
  pub name : E → Option String

-- The string that `_handle_failure` returns.
pub data Action : Type 0 where
  requeue stop : Action

-- How one round of the loop in `flush` ends: by `return`, or at the top of the loop again.
pub data Round (E W : Type 0) : Type 0 where
  finished : Buffer E → W → Round E W
  again : Buffer E → W → Round E W

module _ {E : Type 0} where
  abbrev pub note : Effect E → Buffer E → Buffer E
  note x b = record b { effects = x ∷ b.effects }

  abbrev pub full_width : Buffer E → ℕ
  full_width b = min b.options.size b.max_request_events

  -- `Buffer.__init__`
  unfoldable pub new : BatchOptions → ℕ → ℕ → Buffer E
  new options max_request_events close_budget = record {
    options = options;
    max_request_events = max_request_events;
    close_budget = close_budget;
    queue = [];
    batch_size = min options.size max_request_events;
    consecutive_failures = 0;
    consecutive_successes = 0;
    consecutive_drops = 0;
    stopped = false;
    close_deadline = none;
    timer = false;
    exit_hook = options.flush_on_exit;
    effects = [];
  }

  -- The property `size`.
  abbrev pub size : Buffer E → ℕ
  size b = length b.queue

  -- `del self._queue[:count]`
  abbrev pub del_queue : ℕ → Buffer E → Buffer E
  del_queue count b = record b { queue = drop count b.queue }
