-- ===== src/Client/Buffered.antt =====
-- The rule for what `_submit` keeps of a client with a buffer.
use intempt_python.Prelude.{
  Bool, true, false, ◌||◌, Option, none, some, List, [], ◌∷◌, arith, if-cases, Returns,
}
use intempt_python.Buffer.State.{Buffer, Entry, note, logged}
use intempt_python.Buffer.Drain.{enqueue, flush, flush_or_schedule, schedule_flush}
use intempt_python.Buffer.Valid.{IsValid}
use intempt_python.Buffer.Producer.{enqueue-cases, appended, appended-IsValid}
use intempt_python.Python.Value.{Value}
use intempt_python.Client.Session.{Outside, Session, buffer_env, then_enqueue, enqueue_all}

-- `P` is kept by a flush, and by what `enqueue` does besides.
module _ {W : Type 0} (out : Outside W) (P : Buffer Value → Session × W → Type 0)
    (flushed : (b : Buffer Value) (sw : Session × W)
      → IsValid b
      → P b sw
      → Returns (λ (b', sw'). IsValid b' × P b' sw') (flush (buffer_env out) b sw))
    (noted : (entry : Entry) (b : Buffer Value) (sw : Session × W)
      → P b sw
      → P (note (logged entry) b) sw)
    (queued : (event : Value) (b : Buffer Value) (sw : Session × W)
      → P b sw
      → P (appended event b) sw)
    (timed : (b : Buffer Value) (sw : Session × W)
      → P b sw
      → P (record b { timer = true }) sw) where
  abbrev Holds : Buffer Value × (Session × W) → Type 0
  Holds (b, sw) = IsValid b × P b sw

  flush_or_schedule-Holds :
      (full : Bool) (b : Buffer Value) (sw : Session × W)
      → Holds (b, sw)
      → Returns Holds (flush_or_schedule (buffer_env out) full b sw)
  unfolding flush_or_schedule
  flush_or_schedule-Holds true b sw h = flushed b sw h.0 h.1
  flush_or_schedule-Holds false b sw h =
      unfold schedule_flush in
      if-cases (λ b'. Holds (b', sw)) (b.timer || b.stopped) b (record b { timer = true }) (λ _. h)
        (λ _. (omega (arith, h.0), timed b sw h.1))

  enqueue-Holds :
      (event : Value) (b : Buffer Value) (sw : Session × W)
      → Holds (b, sw)
      → Returns Holds (enqueue (buffer_env out) event b sw)
  enqueue-Holds event b sw h =
      enqueue-cases (buffer_env out) (Returns Holds) event b sw
        (λ _ entry. (omega (arith, h.0), noted entry b sw h.1))
        (λ keeps full.
          flush_or_schedule-Holds full (appended event b) sw
            (appended-IsValid event b h.0 keeps, queued event b sw h.1))

  then_enqueue-Holds :
      (next : Buffer Value → Session × W → Option (Buffer Value × (Session × W)))
      (o : Option (Buffer Value × (Session × W)))
      → ((b : Buffer Value) (sw : Session × W) → Holds (b, sw) → Returns Holds (next b sw))
      → Returns Holds o
      → Returns Holds (then_enqueue out next o)
  then_enqueue-Holds next none keep h = h
  then_enqueue-Holds next (some (b, sw)) keep h = keep b sw h

  pub enqueue_all-Holds :
      (events : List Value) (b : Buffer Value) (sw : Session × W)
      → IsValid b × P b sw
      → Returns (λ (b', sw'). IsValid b' × P b' sw') (enqueue_all out events b sw)
  unfolding enqueue_all
  enqueue_all-Holds [] b sw h = h
  enqueue_all-Holds (event ∷ events) b sw h =
      then_enqueue-Holds (enqueue_all out events) (enqueue (buffer_env out) event b sw)
        (enqueue_all-Holds events) (enqueue-Holds event b sw h)
