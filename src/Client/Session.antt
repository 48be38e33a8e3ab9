-- ===== src/Client/Session.antt =====
-- intempt/_client.py: the attributes of an `Intempt` client, and the methods by which events leave it.
use Prim.Native.String.{◌++◌}
use intempt_python.Prelude.{
  ℕ, String, Bool, true, false, ◌&&◌, ◌||◌, not, Option, none, some, List, [], ◌∷◌, length,
  is_empty, if◌then◌else◌,
}
use intempt_python.Buffer.State.{Buffer, Env, close_drain_budget}
use intempt_python.Buffer.State.{new as new_buffer}
use intempt_python.Buffer.Drain.{enqueue, flush}
use intempt_python.Buffer.Drain.{close as close_buffer}
use intempt_python.Config.Record.{ResolvedConfig, project_path}
use intempt_python.Config.Merge.{merge_config}
use intempt_python.Errors.{Error, config_error}
use intempt_python.Python.Encode.{quote}
use intempt_python.Python.Float.{Float}
use intempt_python.Python.Result.{Result, ok, raised}
use intempt_python.Python.Text.{is_nil}
use intempt_python.Python.Value.{
  Value, str, list, dict, Items, nil, cons, Fields, end, field, Options, get, fields_of,
}
use intempt_python.Transport.State.{Net, Transport}
use intempt_python.Transport.State.{
  new as new_transport, set_config as set_transport_config, close as close_transport,
}
use intempt_python.Transport.Post.{post}

-- What the client calls outside: the network, the clock and the wait of the buffer, `uuid.uuid4`,
-- the timestamp of `datetime.now`, and `str` of a path that is no text.
pub record Outside (W : Type 0) : Type 0 where
  pub net : Net W
  pub monotonic : W → ℕ × W
  pub sleep : ℕ → W → W
  pub uuid : W → String × W
  pub now : W → Float × W
  pub show : Value → String

-- A call of `logger.warning`.
pub data Warning : Type 0 where
  discarding : ℕ → Warning
  flags_failed : Warning

-- The attributes of a client, without its buffer. `warnings` is the trace of what it has logged.
pub record Session : Type 0 where
  pub config : ResolvedConfig
  pub transport : Transport
  pub opted_in : Bool
  pub closed : Bool
  pub warnings : List Warning

-- A client. The buffer reaches the rest by the callback `_send` alone.
pub record Client : Type 0 where
  pub session : Session
  pub buffer : Option (Buffer Value)

unfoldable pub is_opted_in : Session → Bool
is_opted_in s = s.opted_in && not s.closed

abbrev pub warn : Warning → Session → Session
warn x s = record s { warnings = x ∷ s.warnings }

-- `_assert_open`
unfoldable pub assert_open : Session → Result (Unit {0})
assert_open s =
    if s.closed
    then raised (
        config_error
          "Intempt client is closed. Calls after close() are not sent; create a new client.")
    else ok tt

abbrev pub items : List Value → Items
items [] = nil
items (v ∷ vs) = cons v (items vs)

abbrev pub fields : Options → Fields
fields [] = end
fields ((k, v) ∷ rest) = field k v (fields rest)

-- `event.get("name")` of an event that the client built.
abbrev pub name_text : Value → Option String
name_text (str s) = some s
name_text v = none

abbrev pub event_name : Value → Option String
event_name (dict fs) = name_text (get "name" (fields_of fs))
event_name v = none

abbrev path_suffix : Option String → String
path_suffix none = "/track"
path_suffix (some s) = if is_nil s then "/track" else "/sources/" ++ (quote s ++ "/track")

module _ {W : Type 0} (out : Outside W) where
  -- `_track_path`
  unfoldable pub track_path : Session → String
  track_path s = project_path out.show s.config (path_suffix s.config.source_id)

  -- The session after a call of `post`.
  abbrev pub after_post : Session → Result Value × Transport × W → Result Value × Session × W
  after_post s (r, t, w) = (r, record s { transport = t }, w)

  abbrev pub discard : Result Value × Session × W → Result (Unit {0}) × Session × W
  discard (ok v, s, w) = (ok tt, s, w)
  discard (raised e, s, w) = (raised e, s, w)

  -- `_send`
  unfoldable pub send : List Value → Session → W → Result (Unit {0}) × Session × W
  send events s w =
      if is_opted_in s
      then discard (
          after_post s (
            post out.net (track_path s) (dict (field "track" (list (items events)) end)) s.transport
              w))
      else (ok tt, warn (discarding (length events)) s, w)

  abbrev pub outcome : Result (Unit {0}) × Session × W → Option Error × (Session × W)
  outcome (ok u, s, w) = (none, (s, w))
  outcome (raised e, s, w) = (some e, (s, w))

  -- What the client's buffer calls: its world is the client's session and the world outside.
  unfoldable pub buffer_env : Env Value (Session × W)
  buffer_env = record {
    send = λ events (s, w). outcome (send events s w);
    monotonic = λ (s, w). let (now, w') = out.monotonic w in (now, (s, w'));
    sleep = λ seconds (s, w). (s, out.sleep seconds w);
    name = event_name;
  }

  -- The client again; `none` comes only from the buffer.
  abbrev pub rebuild : Option (Buffer Value × (Session × W)) → Option (Client × W)
  rebuild none = none
  rebuild (some (b, (s, w))) = some (record { session = s; buffer = some b }, w)

  unfoldable pub flush_client : Client → W → Option (Client × W)
  flush_client c w = elim c.buffer [
    | none ↦ some (c, w)
    | some b ↦ rebuild (flush buffer_env b (c.session, w))
  ]

  -- What `close` does once the buffer is closed.
  abbrev pub shut : Client × W → Client × W
  shut (c, w) =
      let s = c.session in
      (
        record c { session = record s { closed = true; transport = close_transport s.transport } },
        w,
      )

  abbrev pub then_shut : Option (Client × W) → Option (Client × W)
  then_shut none = none
  then_shut (some r) = some (shut r)

  -- `self._buffer.close()`, if there is a buffer.
  abbrev pub close_buffered : Option (Buffer Value) → Client → W → Option (Client × W)
  close_buffered none c w = some (c, w)
  close_buffered (some b) c w = rebuild (close_buffer buffer_env b (c.session, w))

  unfoldable pub close_client : Client → W → Option (Client × W)
  close_client c w =
      if c.session.closed then some (c, w) else then_shut (close_buffered c.buffer c w)

  -- The loop over `events` in `_submit`.
  abbrev pub then_enqueue :
      (Buffer Value → Session × W → Option (Buffer Value × (Session × W)))
      → Option (Buffer Value × (Session × W))
      → Option (Buffer Value × (Session × W))
  then_enqueue next none = none
  then_enqueue next (some (b, sw)) = next b sw

  unfoldable pub enqueue_all :
      List Value → Buffer Value → Session × W → Option (Buffer Value × (Session × W))
  enqueue_all [] b sw = some (b, sw)
  enqueue_all (event ∷ events) b sw =
      then_enqueue (enqueue_all events) (enqueue buffer_env event b sw)

  abbrev pub unbuffered :
      Client → Result (Unit {0}) × Session × W → Option (Result (Unit {0}) × (Client × W))
  unbuffered c (r, s, w) = some (r, (record c { session = s }, w))

  abbrev pub taken_in : Option (Client × W) → Option (Result (Unit {0}) × (Client × W))
  taken_in none = none
  taken_in (some r) = some (ok tt, r)

  -- `_submit` after `_assert_open`.
  unfoldable pub submit_open : List Value → Client → W → Option (Result (Unit {0}) × (Client × W))
  submit_open events c w =
      if not (is_opted_in c.session) || is_empty events
      then some (ok tt, (c, w))
      else (elim c.buffer [
        | none ↦ unbuffered c (send events c.session w)
        | some b ↦ taken_in (rebuild (enqueue_all events b (c.session, w)))
      ])

  abbrev pub submit_checked :
      Result (Unit {0}) → List Value → Client → W → Option (Result (Unit {0}) × (Client × W))
  submit_checked (raised e) events c w = some (raised e, (c, w))
  submit_checked (ok u) events c w = submit_open events c w

  -- `_submit`
  unfoldable pub submit : List Value → Client → W → Option (Result (Unit {0}) × (Client × W))
  submit events c w = submit_checked (assert_open c.session) events c w

  -- `Intempt.set_config`
  unfoldable pub set_client_config : Options → Session → Result (Unit {0}) × Session
  set_client_config patch s = elim (merge_config out.show s.config patch) [
    | raised e ↦ (raised e, s)
    | ok config ↦
        (ok tt, record s { config = config; transport = set_transport_config config s.transport })
  ]

unfoldable pub opt_in : Session → Session
opt_in s = record s { opted_in = true }

unfoldable pub opt_out : Session → Session
opt_out s = record s { opted_in = false }

-- `Intempt.__init__`, from a configuration that `resolve_config` returned; `limit` is the integer
-- `max_request_events` in it, and the buffer keeps the default close budget.
unfoldable pub start : ResolvedConfig → ℕ → Client
start config limit = record {
  session = record {
    config = config;
    transport = new_transport config config.credentials;
    opted_in = true;
    closed = false;
    warnings = [];
  };
  buffer = elim config.batch [
    | none ↦ none
    | some o ↦ some (new_buffer o limit close_drain_budget)
  ];
}
