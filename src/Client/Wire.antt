-- ===== src/Client/Wire.antt =====
-- What the buffer of a client counts as sent, and what leaves on the client's transport.
pub mod Calls
pub mod Closed
mod Tests
use intempt_python.Prelude.{
  String, Bool, true, false, ◌&&◌, ◌||◌, Option, none, some, List, [], ◌∷◌, ◌++◌, ◌≡◌, ◌∙◌, refl,
  arith, if-cases, append_assoc, Returns, ap, sym,
}
use intempt_python.Errors.{Error}
use intempt_python.Buffer.State.{
  Buffer, Effect, delivered, rejected, slept, logged, Action, requeue, stop, note,
}
use intempt_python.Buffer.Retry.{
  accept, widen_if_earned, handle_too_large, drop_too_large, drop_batch, retry, back_off,
  handle_failure, reads_past_deadline,
}
use intempt_python.Buffer.Drain.{settle as settle_action, after_send, round, flush, cancel_timer}
use intempt_python.Buffer.Valid.{IsValid}
use intempt_python.Buffer.Rounds.{Goes, flush-Returns, cleared}
use intempt_python.Buffer.Cases.{round-cases, failure-cases}
use intempt_python.Python.Result.{Result, ok, raised}
use intempt_python.Python.Value.{Value, dict, list, end, field}
use intempt_python.Transport.State.{Transport}
use intempt_python.Transport.Post.{post}
use intempt_python.Transport.Sent.{payloads, dumped, HasSent, post-HasSent}
use intempt_python.Client.Session.{
  Outside, Session, is_opted_in, items, track_path, after_post, discard, outcome, send, buffer_env,
}

-- The body of a request that carries events.
abbrev pub body_of : List Value → Value
body_of events = dict (field "track" (list (items events)) end)

-- A client that sends: opted in and open, with an open transport that has sent just this.
pub record IsSending (base : List String) (s : Session) : Type 0 where
  pub opted_in : is_opted_in s ≡ true
  pub wire : HasSent base s.transport

module _ {W : Type 0} (out : Outside W) where
  -- The payloads that a call of `_send` with these events adds.
  abbrev pub wire_of : List Value → List String
  wire_of events = dumped (out.net.dumps (body_of events))

  -- What the effects of a buffer have put on the wire, the latest first: every call of `send` is one
  -- request, whether it was accepted or not.
  abbrev pub wired : List (Effect Value) → List String
  wired [] = []
  wired (delivered batch ∷ xs) = wire_of batch ++ wired xs
  wired (rejected batch error ∷ xs) = wire_of batch ++ wired xs
  wired (slept ms ∷ xs) = wired xs
  wired (logged entry ∷ xs) = wired xs

  posted-IsSending :
      (base : List String) (s : Session) (r : Result Value × Transport × W)
      → is_opted_in s ≡ true
      → HasSent base r.1
      → IsSending base (discard out (after_post out s r)).1
  unfolding is_opted_in
  posted-IsSending base s (ok v, t, w) h k = record { opted_in = h; wire = k }
  posted-IsSending base s (raised e, t, w) h k = record { opted_in = h; wire = k }

  pub send-IsSending :
      (events : List Value) (base : List String) (s : Session) (w : W)
      → IsSending base s
      → IsSending (wire_of events ++ base) (send out events s w).1
  unfolding send
  send-IsSending events base s w h = rw h.opted_in (
      posted-IsSending (wire_of events ++ base) s _ h.opted_in
        (post-HasSent out.net (track_path out s) (body_of events) base s.transport w h.wire))

  -- What holds between the rounds of a flush, and after the last one.
  abbrev pub Agrees : List String → Buffer Value → Session × W → Type 0
  Agrees base b sw = IsSending (wired b.effects ++ base) sw.0

  wired-handle_failure :
      (error : Error) (batch : List Value) (b : Buffer Value) (sw : Session × W)
      → (wired (handle_failure (buffer_env out) error batch b sw).1.effects ≡ wired b.effects)
        × ((handle_failure (buffer_env out) error batch b sw).2.0 ≡ sw.0)
  wired-handle_failure error batch b sw =
      failure-cases (buffer_env out) (λ r. (wired r.1.effects ≡ wired b.effects) × (r.2.0 ≡ sw.0))
        error batch b sw (λ large. unfold handle_too_large drop_too_large in (ground arith, refl))
        (λ small drops. unfold drop_batch in (refl, refl))
        (λ small keeps. unfold retry back_off reads_past_deadline buffer_env in ground arith)

  effects-accept :
      (batch : List Value) (b : Buffer Value)
      → wired (accept batch b).effects ≡ wire_of batch ++ wired b.effects
  unfolding accept widen_if_earned
  effects-accept batch b = ground arith

  settle-Agrees :
      (base : List String) (r : Action × Buffer Value × (Session × W))
      → Agrees base r.1 r.2
      → Goes (Agrees base) (Agrees base) (settle_action r)
  settle-Agrees base (requeue, b, sw) h = h
  settle-Agrees base (stop, b, sw) h = h

  after_send-Agrees :
      (base : List String) (o : Option Error) (batch : List Value) (b : Buffer Value)
      (sw : Session × W)
      → IsSending (wire_of batch ++ (wired b.effects ++ base)) sw.0
      → Goes (Agrees base) (Agrees base) (after_send (buffer_env out) o batch b sw)
  unfolding after_send
  after_send-Agrees base none batch b sw h = rw (effects-accept batch b, append_assoc) h
  after_send-Agrees base (some error) batch b sw h =
      let b' : Buffer Value = note (rejected batch error) b in
      let (effects, session) = wired-handle_failure error batch b' sw in
      settle-Agrees base (handle_failure (buffer_env out) error batch b' sw)
        (rw (effects, session, append_assoc) h)

  -- The session in which `_send` leaves a client, as the buffer gets it.
  outcome-session :
      (base : List String) (r : Result (Unit {0}) × Session × W)
      → IsSending base r.1
      → IsSending base (outcome out r).1.0
  outcome-session base (ok u, s, w) h = h
  outcome-session base (raised e, s, w) h = h

  called-IsSending :
      (batch : List Value) (base : List String) (sw : Session × W)
      → IsSending base sw.0
      → IsSending (wire_of batch ++ base) ((buffer_env out).send batch sw).1.0
  unfolding buffer_env
  called-IsSending batch base (s, w) h =
      outcome-session _ (send out batch s w) (send-IsSending batch base s w h)

  session-reads :
      (b : Buffer Value) (sw : Session × W)
      → (reads_past_deadline (buffer_env out) 0 b sw).1.0 ≡ sw.0
  unfolding reads_past_deadline buffer_env
  session-reads b sw = ground arith

  round-Agrees :
      (base : List String) (b : Buffer Value) (sw : Session × W)
      → IsValid b
      → Agrees base b sw
      → Goes (Agrees base) (Agrees base) (round (buffer_env out) b sw)
  round-Agrees base b sw v h =
      let same = session-reads b sw in
      round-cases (buffer_env out) (Goes (Agrees base) (Agrees base)) b sw v (λ _. rw same h)
        (λ _ t front. after_send-Agrees base _ _ b _ (called-IsSending _ _ _ (rw same h)))

  pub flush-Agrees :
      (base : List String) (b : Buffer Value) (sw : Session × W)
      → IsValid b
      → Agrees base b sw
      → Returns (λ (b', sw'). IsValid b' × Agrees base b' sw') (flush (buffer_env out) b sw)
  flush-Agrees base b sw v h =
      flush-Returns (buffer_env out) (Agrees base) (Agrees base) (round-Agrees base) b sw v
        (unfold cancel_timer in h)
