-- ===== src/Transport/State.antt =====
-- intempt/_transport.py: the attributes of a `Transport`, what it calls, and its connection.
use text.Mathlib.Text.{◌==◌}
use intempt_python.Prelude.{
  ℕ, String, Bool, true, false, ◌||◌, not, Option, none, some, List, [], ◌∷◌, if◌then◌else◌,
}
use intempt_python.Prelude.{◌==◌ as eq_ℕ}
use intempt_python.Config.Credentials.{Credentials}
use intempt_python.Config.Record.{ResolvedConfig}
use intempt_python.Python.Float.{Float}
use intempt_python.Python.Result.{Result}
use intempt_python.Python.Value.{Value}

-- An `HTTPSConnection` or an `HTTPConnection`, by the arguments that it was built with.
pub record Connection : Type 0 where
  pub secure : Bool
  pub host : String
  pub port : Option ℕ
  pub timeout : Float

-- The arguments of `conn.request`, whose method is always POST.
pub record Request : Type 0 where
  pub path : String
  pub payload : String
  pub headers : List (String × String)

-- How `conn.request`, `conn.getresponse` and the reading of the response end together: with the
-- status, the decoded body and the Retry-After header; with a `socket.timeout`; with another
-- `HTTPException` or `OSError`, its text and the name of its class; or with an exception of any other
-- class.
pub data Outcome : Type 0 where
  response : ℕ → String → Option String → Outcome
  timed_out : Outcome
  failed : String → String → Outcome
  broke : String → Outcome

-- What the transport has done to the outside.
pub data Event : Type 0 where
  requested : Connection → Request → Event
  closed : Connection → Event
  logged : String → Event

-- What the transport calls: the network, `json.dumps` with `_json_default`, `json.loads` (`none` is
-- the `ValueError`), `float` of a text, `parsedate_to_datetime` (`none` is one of the two errors that the
-- source expects) with the `timestamp()` of its result, which may raise, `time.time`, and `str` of the
-- timeout in a message.
pub record Net (W : Type 0) : Type 0 where
  pub exchange : Connection → Request → W → Outcome × W
  pub dumps : Value → Result String
  pub loads : String → Option Value
  pub parse_float : String → Option Float
  pub parse_date : String → Option (Result Float)
  pub time : W → Float × W
  pub show_float : Float → String

-- The attributes of a `Transport`, and the trace of what it has done, the latest first.
pub record Transport : Type 0 where
  pub config : ResolvedConfig
  pub credentials : Credentials
  pub conn : Option Connection
  pub closed : Bool
  pub trace : List Event

abbrev pub note : Event → Transport → Transport
note x t = record t { trace = x ∷ t.trace }

-- `Transport.__init__`
unfoldable pub new : ResolvedConfig → Credentials → Transport
new config credentials = record {
  config = config;
  credentials = credentials;
  conn = none;
  closed = false;
  trace = [];
}

abbrev pub same_port : Option ℕ → Option ℕ → Bool
same_port none none = true
same_port (some p) (some q) = eq_ℕ p q
same_port p q = false

-- An exception of `conn.close()` is suppressed.
unfoldable pub drop_connection : Transport → Transport
drop_connection t = elim t.conn [ none ↦ t | some c ↦ record (note (closed c) t) { conn = none } ]

-- `reconnect`
unfoldable pub moves : ResolvedConfig → ResolvedConfig → Bool
moves old new =
    not (new.host == old.host)
    || (not (same_port new.port old.port) || not (new.scheme == old.scheme))

unfoldable pub set_config : ResolvedConfig → Transport → Transport
set_config config t =
    let t' : Transport = record t { config = config } in
    if moves t.config config then drop_connection t' else t'

-- The connection that a configuration asks for.
abbrev pub connect : ResolvedConfig → Connection
connect config = record {
  secure = config.scheme == "https";
  host = config.host;
  port = config.port;
  timeout = config.timeout;
}

abbrev pub pooled_or_new : Option Connection → ResolvedConfig → Connection
pooled_or_new none config = connect config
pooled_or_new (some c) config = if config.keep_alive then c else connect config

-- `_connection`: what it returns, and what it stores.
unfoldable pub connection : Transport → Connection × Transport
connection t =
    let c = pooled_or_new t.conn t.config in
    (c, (if t.config.keep_alive then record t { conn = some c } else t))

unfoldable pub close : Transport → Transport
close t = drop_connection (record t { closed = true })
