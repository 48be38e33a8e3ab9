-- ===== src/Client/Wire/Closed.antt =====
-- The requests of a buffered client that is closed.
use intempt_python.Prelude.{
  String, Option, none, some, List, ◌++◌, ◌≡◌, ◌∙◌, refl, ap, arith, Returns, if-cases,
}
use intempt_python.Buffer.State.{Buffer}
use intempt_python.Buffer.Drain.{finish_close, then_close, close as close_buffer}
use intempt_python.Buffer.Valid.{IsValid}
use intempt_python.Buffer.Close.{IsClosed, close-conserves}
use intempt_python.Buffer.Conserve.{handed}
use intempt_python.Python.Value.{Value}
use intempt_python.Transport.State.{close as close_transport}
use intempt_python.Transport.Answers.{exchanges-drop_connection}
use intempt_python.Transport.Sent.{payloads, payloads_of}
use intempt_python.Client.Session.{
  Outside, Session, Client, is_opted_in, buffer_env, rebuild, then_shut, close_client,
}
use intempt_python.Client.Shutdown.{IsShut, shut_lem}
use intempt_python.Client.Wire.{IsSending, wired, Agrees, flush-Agrees}

module _ {W : Type 0} (out : Outside W) (base : List String) where
  wired-finish_close : (b : Buffer Value) → wired out (finish_close b).effects ≡ wired out b.effects
  unfolding finish_close
  wired-finish_close b = ground arith

  abbrev Sends : Buffer Value × (Session × W) → Type 0
  Sends (b, sw) = Agrees out base b sw

  then_close-Sends :
      (o : Option (Buffer Value × (Session × W)))
      → Returns (λ (b, sw). IsValid b × Agrees out base b sw) o
      → Returns Sends (then_close o)
  then_close-Sends none h = h
  then_close-Sends (some (b, sw)) h = rw (wired-finish_close b) h.1

  close-Sends :
      (b : Buffer Value) (sw : Session × W)
      → IsValid b
      → Agrees out base b sw
      → Returns Sends (close_buffer (buffer_env out) b sw)
  unfolding close_buffer buffer_env
  close-Sends b (s, w) v h = then_close-Sends _ (flush-Agrees out base _ _ (omega arith) h)

  -- A client that is closed, and has sent what its buffer counts as sent.
  pub record HasSentAll (before : Buffer Value) (c : Client) (b : Buffer Value) : Type 0 where
    pub held : c.buffer ≡ some b
    pub shut : IsShut (some before) c
    pub sent : payloads c.session.transport ≡ wired out b.effects ++ base

  then_shut-HasSentAll :
      (before : Buffer Value) (o : Option (Buffer Value × (Session × W)))
      → Returns (λ (b, sw). IsValid b × (IsClosed b × (handed b ≡ handed before))) o
      → Returns Sends o
      → Returns
          (λ (c, w). (b : Buffer Value) × HasSentAll before c b)
          (then_shut out (rebuild out o))
  unfolding close_transport
  then_shut-HasSentAll before none closed sends = closed
  then_shut-HasSentAll before (some (b, (s, w))) closed sends = (
    b,
    record {
      held = refl;
      shut =
          shut_lem out (some before) (record { session = s; buffer = some b }) w closed.1.0
            closed.1.1;
      sent = ap payloads_of (exchanges-drop_connection _) ∙ sends.wire.sent;
    },
  )

  -- `close` of a client that is open and opted in, with a valid buffer, whose transport has sent the
  -- batches of the buffer's effects, returns, whatever the network does. The client and its
  -- transport are then closed and keep no connection, and the buffer has stopped. What the buffer
  -- was given has left it by a delivery or by a row of the retry table, or is still in its queue;
  -- and the transport has sent the payloads of all batches that the buffer has tried, those of
  -- `close` among them, in order, after what it had sent before: one request for each batch, whether
  -- it was accepted or not, and none if `json.dumps` raises on it.
  pub close_client-HasSentAll :
      (s : Session) (b : Buffer Value) (w : W)
      → IsValid b
      → IsSending (wired out b.effects ++ base) s
      → Returns
          (λ (c, w'). (b' : Buffer Value) × HasSentAll b c b')
          (close_client out (record { session = s; buffer = some b }) w)
  unfolding close_client is_opted_in
  close_client-HasSentAll s b w v h =
      if-cases (Returns (λ (c, w'). (b' : Buffer Value) × HasSentAll b c b')) s.closed _ _
        (λ closed. absurd (ground (arith, h.opted_in)))
        (λ live.
          then_shut-HasSentAll b (close_buffer (buffer_env out) b (s, w))
            (close-conserves (buffer_env out) b (s, w) v) (close-Sends b (s, w) v h))
