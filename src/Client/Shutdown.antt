-- ===== src/Client/Shutdown.antt =====
-- What `close` leaves of a client.
use intempt_python.Prelude.{
  true, false, Option, none, some, List, [], ◌≡◌, refl, arith, Returns, if-cases,
}
use intempt_python.Buffer.State.{Buffer}
use intempt_python.Buffer.Drain.{close as close_buffer}
use intempt_python.Buffer.Valid.{IsValid}
use intempt_python.Buffer.Close.{IsClosed, close-conserves}
use intempt_python.Buffer.Conserve.{handed}
use intempt_python.Python.Value.{Value}
use intempt_python.Client.Session.{
  Outside, Session, Client, buffer_env, rebuild, shut, then_shut, close_buffered, close_client,
}
use intempt_python.Transport.State.{close as close_transport}
use intempt_python.Transport.Pool.{drop_connection_lem}

-- A buffer, if there is one, that `P` holds of.
abbrev pub IfBuffered : (Buffer Value → Type 0) → Option (Buffer Value) → Type 0
IfBuffered P none = Unit
IfBuffered P (some b) = P b

-- What the buffer was given, if there is a buffer.
abbrev pub handed_to : Option (Buffer Value) → List Value
handed_to none = []
handed_to (some b) = handed b

pub record IsShut (before : Option (Buffer Value)) (c : Client) : Type 0 where
  pub closed : c.session.closed ≡ true
  pub transport_closed : c.session.transport.closed ≡ true
  pub no_connection : c.session.transport.conn ≡ none
  pub buffer_closed : IfBuffered IsClosed c.buffer
  pub accounted : handed_to c.buffer ≡ handed_to before

module _ {W : Type 0} (out : Outside W) where
  pub shut_lem :
      (before : Option (Buffer Value)) (c : Client) (w : W)
      → IfBuffered IsClosed c.buffer
      → handed_to c.buffer ≡ handed_to before
      → IsShut before (shut out (c, w)).0
  unfolding close_transport
  shut_lem before c w done same =
      let t = c.session.transport in
      let (empty, config, closed) = drop_connection_lem (record t { closed = true }) in
      record {
        closed = refl;
        transport_closed = closed;
        no_connection = empty;
        buffer_closed = done;
        accounted = same;
      }

  then_shut_lem :
      (before : Buffer Value) (s : Session) (r : Option (Buffer Value × (Session × W)))
      → Returns (λ (b, sw). IsValid b × (IsClosed b × (handed b ≡ handed before))) r
      → Returns (λ (c, w). IsShut (some before) c) (then_shut out (rebuild out r))
  then_shut_lem before s none h = absurd h
  then_shut_lem before s (some (b, (s', w))) h =
      shut_lem (some before) (record { session = s'; buffer = some b }) w h.1.0 h.1.1

  close_buffered_lem :
      (buffer : Option (Buffer Value)) (c : Client) (w : W)
      → c.buffer ≡ buffer
      → IfBuffered IsValid buffer
      → Returns (λ (c', w'). IsShut buffer c') (then_shut out (close_buffered out buffer c w))
  close_buffered_lem none c w e v = shut_lem none c w (rw e tt) (rw e)
  close_buffered_lem (some b) c w e v =
      then_shut_lem b c.session (close_buffer (buffer_env out) b (c.session, w))
        (close-conserves (buffer_env out) b (c.session, w) v)

  -- `close` of a client that is open, with a valid buffer or with none, returns whatever the network
  -- does. The client and its transport are then closed and keep no connection, and the buffer has
  -- stopped, with no timer and no exit hook; what it was given has left it in a call of `_send` that
  -- returned, or by a row of the retry table, or is still in its queue.
  pub close_client-IsShut :
      (c : Client) (w : W)
      → c.session.closed ≡ false
      → IfBuffered IsValid c.buffer
      → Returns (λ (c', w'). IsShut c.buffer c') (close_client out c w)
  unfolding close_client
  close_client-IsShut c w live v =
      if-cases (Returns (λ (c', w'). IsShut c.buffer c')) c.session.closed (some (c, w))
        (then_shut out (close_buffered out c.buffer c w)) (λ h. absurd (ground arith))
        (λ h. close_buffered_lem c.buffer c w refl v)
