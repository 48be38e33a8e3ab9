-- ===== src/Client/OptOut.antt =====
-- What leaves a client that has opted out, or that is closed.
use intempt_python.Prelude.{false, none, List, [], ◌≡◌, refl, arith, Returns}
use intempt_python.Buffer.State.{Buffer}
use intempt_python.Buffer.Retry.{accept, widen_if_earned, reads_past_deadline}
use intempt_python.Buffer.Drain.{after_send, round, flush, cancel_timer}
use intempt_python.Buffer.Valid.{IsValid}
use intempt_python.Buffer.Rounds.{Goes, flush-Returns}
use intempt_python.Buffer.Cases.{round-cases}
use intempt_python.Buffer.Drained.{empty_of_is_empty}
use intempt_python.Client.Session.{Outside, Session, is_opted_in, send, buffer_env}
use intempt_python.Python.Value.{Value}

-- Two sessions that differ in nothing but what they have logged.
pub record SameButWarnings (before after : Session) : Type 0 where
  pub config : after.config ≡ before.config
  pub transport : after.transport ≡ before.transport
  pub opted_in : after.opted_in ≡ before.opted_in
  pub closed : after.closed ≡ before.closed

module _ {W : Type 0} (out : Outside W) (before : Session)
    (muted : is_opted_in before ≡ false) where
  -- What holds between the rounds of a flush.
  abbrev Quiet : Buffer Value → Session × W → Type 0
  Quiet b sw = SameButWarnings before sw.0 × ((b.stopped ≡ false) × (b.close_deadline ≡ none))

  abbrev Discarded : Buffer Value → Session × W → Type 0
  Discarded b sw = SameButWarnings before sw.0 × (b.queue ≡ [])

  is_muted : (s : Session) → SameButWarnings before s → is_opted_in s ≡ false
  unfolding is_opted_in
  is_muted s same = rw (same.opted_in, same.closed) muted

  accept_lem :
      (batch : List Value) (b : Buffer Value)
      → ((accept batch b).stopped ≡ b.stopped)
        × ((accept batch b).close_deadline ≡ b.close_deadline)
  unfolding accept widen_if_earned
  accept_lem batch b = ground arith

  muted_send :
      (batch : List Value) (b : Buffer Value) (sw : Session × W)
      → Quiet b sw
      → Goes Quiet Discarded (
          after_send
            (buffer_env out)
            ((buffer_env out).send batch sw).0
            batch
            b
            ((buffer_env out).send batch sw).1)
  unfolding buffer_env send after_send
  muted_send batch b (s, w) (same, (live, unbounded)) =
      let (stopped, deadline) = accept_lem batch b in
      rw (is_muted s same) (
        record {
          config = same.config;
          transport = same.transport;
          opted_in = same.opted_in;
          closed = same.closed;
        },
        (rw stopped live, rw deadline unbounded),
      )

  read_lem :
      (b : Buffer Value) (sw : Session × W)
      → b.close_deadline ≡ none
      → reads_past_deadline (buffer_env out) 0 b sw ≡ (false, sw)
  unfolding reads_past_deadline
  read_lem b sw unbounded = rw unbounded

  muted_round :
      (b : Buffer Value) (sw : Session × W)
      → IsValid b
      → Quiet b sw
      → Goes Quiet Discarded (round (buffer_env out) b sw)
  muted_round b sw v q =
      let read = read_lem b sw q.1.1 in
      let late : (reads_past_deadline (buffer_env out) 0 b sw).0 ≡ false = rw read in
      round-cases (buffer_env out) (Goes Quiet Discarded) b sw v
        (λ h. (rw read q.0, empty_of_is_empty b.queue (ground arith)))
        (λ h t front. muted_send _ b _ (rw read q))

  -- A flush of a client that has opted out returns, makes no request and changes nothing of the
  -- client but what it has logged; the events that were buffered are gone. This is from a valid
  -- buffer that has not stopped and is not being closed.
  pub flush-IsDiscarded :
      (b : Buffer Value) (w : W)
      → IsValid b
      → b.stopped ≡ false
      → b.close_deadline ≡ none
      → Returns (λ (b', sw'). IsValid b' × Discarded b' sw') (flush (buffer_env out) b (before, w))
  flush-IsDiscarded b w v live unbounded =
      flush-Returns (buffer_env out) Quiet Discarded muted_round b (before, w) v
        (unfold cancel_timer in
          (
            record { config = refl; transport = refl; opted_in = refl; closed = refl },
            (live, unbounded),
          ))
