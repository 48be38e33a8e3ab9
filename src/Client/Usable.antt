-- ===== src/Client/Usable.antt =====
-- A client that is open, with a valid buffer or none, under each of its calls.
pub mod Writes
pub mod Reads
mod Tests
use intempt_python.Prelude.{
  String, Bool, true, false, ◌||◌, not, Option, none, some, List, [], ◌∷◌, ◌≡◌, ◌∙◌, refl, arith,
  is_empty, if-cases, Returns, ap,
}
use intempt_python.Errors.{Error}
use intempt_python.Buffer.State.{Buffer, Action, requeue, stop, note, logged, rejected}
use intempt_python.Buffer.Retry.{accept, retry, back_off, handle_failure, reads_past_deadline}
use intempt_python.Buffer.Drain.{
  settle, after_send, round, flush, cancel_timer, enqueue, flush_or_schedule, schedule_flush,
}
use intempt_python.Buffer.Valid.{IsValid}
use intempt_python.Buffer.Rounds.{Goes, flush-Returns}
use intempt_python.Buffer.Cases.{round-cases, failure-cases}
use intempt_python.Buffer.Producer.{enqueue-cases, appended, appended-IsValid}
use intempt_python.Python.Result.{Result, ok, raised}
use intempt_python.Python.Value.{Value}
use intempt_python.Transport.State.{Transport}
use intempt_python.Transport.Post.{post}
use intempt_python.Client.Session.{
  Outside, Session, Client, is_opted_in, assert_open, after_post, discard, outcome, send,
  buffer_env, rebuild, then_enqueue, enqueue_all, unbuffered, taken_in, submit_open, submit_checked,
  submit, flush_client,
}
use intempt_python.Client.Buffered.{enqueue_all-Holds}
use intempt_python.Client.Shutdown.{IfBuffered}

-- The client and its session are open, and the buffer, if there is one, is valid.
pub record IsUsable (c : Client) : Type 0 where
  pub live : c.session.closed ≡ false
  pub valid : IfBuffered IsValid c.buffer

module _ {W : Type 0} (out : Outside W) where
  pub posted_live :
      (s : Session) (r : Result Value × Transport × W)
      → (discard out (after_post out s r)).1.closed ≡ s.closed
  posted_live s (ok v, t, w) = refl
  posted_live s (raised e, t, w) = refl

  pub send_live :
      (events : List Value) (s : Session) (w : W) → (send out events s w).1.closed ≡ s.closed
  unfolding send
  send_live events s w =
      if-cases {A = Result (Unit {0}) × Session × W} (λ r. r.1.closed ≡ s.closed) (is_opted_in s) _
        _ (λ _. posted_live s _) (λ _. refl)

  outcome_live : (r : Result (Unit {0}) × Session × W) → (outcome out r).1.0.closed ≡ r.1.closed
  outcome_live (ok u, s, w) = refl
  outcome_live (raised e, s, w) = refl

  -- What holds between the rounds of a flush.
  abbrev Live : Buffer Value → Session × W → Type 0
  Live b sw = sw.0.closed ≡ false

  handle_failure-Live :
      (error : Error) (batch : List Value) (b : Buffer Value) (sw : Session × W)
      → Live b sw
      → Live b (handle_failure (buffer_env out) error batch b sw).2
  handle_failure-Live error batch b sw h =
      failure-cases (buffer_env out) (λ r. Live b r.2) error batch b sw (λ _. h) (λ _ _. h)
        (λ _ _. unfold retry back_off reads_past_deadline buffer_env in ground arith)

  settle-Live :
      (r : Action × Buffer Value × (Session × W)) → Live r.1 r.2 → Goes Live Live (settle r)
  settle-Live (requeue, b, sw) h = h
  settle-Live (stop, b, sw) h = h

  after_send-Live :
      (o : Option Error) (batch : List Value) (b : Buffer Value) (sw : Session × W)
      → Live b sw
      → Goes Live Live (after_send (buffer_env out) o batch b sw)
  unfolding after_send
  after_send-Live none batch b sw h = h
  after_send-Live (some error) batch b sw h =
      settle-Live (handle_failure (buffer_env out) error batch (note (rejected batch error) b) sw)
        (handle_failure-Live error batch (note (rejected batch error) b) sw h)

  called_live :
      (batch : List Value) (sw : Session × W)
      → ((buffer_env out).send batch sw).1.0.closed ≡ sw.0.closed
  unfolding buffer_env
  called_live batch (s, w) = outcome_live (send out batch s w) ∙ send_live batch s w

  read_live :
      (b : Buffer Value) (sw : Session × W)
      → (reads_past_deadline (buffer_env out) 0 b sw).1.0 ≡ sw.0
  unfolding reads_past_deadline buffer_env
  read_live b sw = ground arith

  round-Live :
      (b : Buffer Value) (sw : Session × W)
      → IsValid b
      → Live b sw
      → Goes Live Live (round (buffer_env out) b sw)
  round-Live b sw v h =
      let same = ap (λ s. s.closed) (read_live b sw) ∙ h in
      round-cases (buffer_env out) (Goes Live Live) b sw v (λ _. same)
        (λ _ t front. after_send-Live _ _ b _ (called_live _ _ ∙ same))

  enqueue_all-Live :
      (events : List Value) (b : Buffer Value) (sw : Session × W)
      → IsValid b × Live b sw
      → Returns (λ (b', sw'). IsValid b' × Live b' sw') (enqueue_all out events b sw)
  enqueue_all-Live =
      enqueue_all-Holds out Live
        (λ b sw v h. flush-Returns (buffer_env out) Live Live round-Live b sw v h)
        (λ entry b sw h. h) (λ event b sw h. h) (λ b sw h. h)

  -- A call that returned or raised has left the client usable.
  abbrev pub Usable : Option (Result (Unit {0}) × (Client × W)) → Type 0
  Usable = Returns (λ (r, (c, w)). IsUsable c)

  taken_in-Usable :
      (o : Option (Buffer Value × (Session × W)))
      → Returns (λ (b, sw). IsValid b × Live b sw) o
      → Usable (taken_in out (rebuild out o))
  taken_in-Usable none h = h
  taken_in-Usable (some (b, (s, w))) h = record { live = h.1; valid = h.0 }

  submit_open-Usable :
      (events : List Value) (s : Session) (o : Option (Buffer Value)) (w : W)
      → IsUsable (record { session = s; buffer = o })
      → Usable (submit_open out events (record { session = s; buffer = o }) w)
  unfolding submit_open
  submit_open-Usable events s none w h =
      if-cases Usable (not (is_opted_in s) || is_empty events) _ _ (λ _. h)
        (λ _. record { live = send_live events s w ∙ h.live; valid = tt })
  submit_open-Usable events s (some b) w h =
      if-cases Usable (not (is_opted_in s) || is_empty events) _ _ (λ _. h)
        (λ _. taken_in-Usable _ (enqueue_all-Live events b (s, w) (h.valid, h.live)))

  submit_checked-Usable :
      (m : Result (Unit {0})) (events : List Value) (c : Client) (w : W)
      → IsUsable c
      → Usable (submit_checked out m events c w)
  submit_checked-Usable (raised e) events c w h = h
  submit_checked-Usable (ok u) events c w h = submit_open-Usable events c.session c.buffer w h

  pub submit-Usable :
      (events : List Value) (c : Client) (w : W) → IsUsable c → Usable (submit out events c w)
  unfolding submit
  submit-Usable events c w h = submit_checked-Usable (assert_open c.session) events c w h

  rebuild-IsUsable :
      (o : Option (Buffer Value × (Session × W)))
      → Returns (λ (b, sw). IsValid b × Live b sw) o
      → Returns (λ (c, w). IsUsable c) (rebuild out o)
  rebuild-IsUsable none h = h
  rebuild-IsUsable (some (b, (s, w))) h = record { live = h.1; valid = h.0 }

  flush_held :
      (s : Session) (o : Option (Buffer Value)) (w : W)
      → IsUsable (record { session = s; buffer = o })
      → Returns (λ (c, w'). IsUsable c) (flush_client out (record { session = s; buffer = o }) w)
  unfolding flush_client
  flush_held s none w h = h
  flush_held s (some b) w h =
      rebuild-IsUsable (flush (buffer_env out) b (s, w))
        (flush-Returns (buffer_env out) Live Live round-Live b (s, w) h.valid h.live)

  pub flush_client-IsUsable :
      (c : Client) (w : W) → IsUsable c → Returns (λ (c', w'). IsUsable c') (flush_client out c w)
  flush_client-IsUsable c w h = flush_held c.session c.buffer w h
