-- ===== src/Transport/Pool.antt =====
-- The connection that a `Transport` keeps, under each of its methods.
use text.Mathlib.Text.{◌==◌}
use text.Mathlib.TextEquality.{eq_iff}
use intempt_python.Prelude.{
  ℕ, String, true, false, Option, none, some, ◌≡◌, inl, inr, refl, arith, Bool-cases, Option-cases,
  if-cases,
}
use intempt_python.Config.Record.{ResolvedConfig}
use intempt_python.Python.Result.{Result, ok, raised}
use intempt_python.Python.Value.{Value, truthy}
use intempt_python.Transport.RetryAfter.{parse_retry_after}
use intempt_python.Transport.State.{
  Connection, Request, Outcome, response, timed_out, failed, broke, Event, logged, Net, Transport,
  new, note, drop_connection, moves, same_port, set_config, connect, connection, pooled_or_new,
  close,
}
use intempt_python.Transport.Post.{
  request_for, debug_log, settle, received, send_request, exchange_on, post_payload, post,
}

-- A connection goes where the configuration says.
pub record Addresses (config : ResolvedConfig) (c : Connection) : Type 0 where
  pub secure : c.secure ≡ (config.scheme == "https")
  pub host : c.host ≡ config.host
  pub port : c.port ≡ config.port

abbrev pub KeptFor : ResolvedConfig → Option Connection → Type 0
KeptFor config none = Unit
KeptFor config (some c) = Addresses config c × (config.keep_alive ≡ true)

-- The connection that is kept, if any, goes to the configured host, and is kept because
-- `keep_alive` is on; a closed transport keeps none.
pub record IsPooled (t : Transport) : Type 0 where
  pub kept : KeptFor t.config t.conn
  pub released : t.closed ≡ true → t.conn ≡ none

pub connect-Addresses : (config : ResolvedConfig) → Addresses config (connect config)
connect-Addresses config = record { secure = refl; host = refl; port = refl }

-- `drop_connection` touches `conn` and the trace.
pub drop_connection_lem :
    (t : Transport)
    → ((drop_connection t).conn ≡ none)
      × ((drop_connection t).config ≡ t.config)
      × ((drop_connection t).closed ≡ t.closed)
unfolding drop_connection
drop_connection_lem t = elim (Option-cases t.conn) [
  | inl e ↦ (rw e, rw e, rw e)
  | inr (c, e) ↦ (rw e, rw e, rw e)
]

pub drop_connection-IsPooled : (t : Transport) → IsPooled (drop_connection t)
drop_connection-IsPooled t =
    let (empty, config, closed) = drop_connection_lem t in
    record { kept = rw empty tt; released = λ h. empty }

same_port_lem : (p q : Option ℕ) → same_port p q ≡ true → p ≡ q
same_port_lem none none h = refl
same_port_lem none (some q) h = ground arith
same_port_lem (some p) none h = ground arith
same_port_lem (some p) (some q) h = ground arith

stays_lem :
    (old new : ResolvedConfig)
    → moves old new ≡ false
    → (new.host ≡ old.host) × (new.port ≡ old.port) × (new.scheme ≡ old.scheme)
unfolding moves
stays_lem old new h = (
  ground (arith, eq_iff new.host old.host),
  same_port_lem new.port old.port (ground arith),
  ground (arith, eq_iff new.scheme old.scheme),
)

stays-KeptFor :
    (old new : ResolvedConfig) (conn : Option Connection)
    → moves old new ≡ false
    → new.keep_alive ≡ old.keep_alive
    → KeptFor old conn
    → KeptFor new conn
stays-KeptFor old new none still same k = tt
stays-KeptFor old new (some c) still same k =
    let (host, port, scheme) = stays_lem old new still in
    (
      record { secure = rw scheme k.0.secure; host = rw host k.0.host; port = rw port k.0.port },
      rw same k.1,
    )

pub set_config-IsPooled :
    (config : ResolvedConfig) (t : Transport)
    → config.keep_alive ≡ t.config.keep_alive
    → IsPooled t
    → IsPooled (set_config config t)
unfolding set_config
set_config-IsPooled config t same p = elim (Bool-cases (moves t.config config)) [
  | inl hit ↦ rw hit (drop_connection-IsPooled (record t { config = config }))
  | inr still ↦
      let moved : IsPooled (record t { config = config }) = record {
        kept = stays-KeptFor t.config config t.conn still same p.kept;
        released = p.released;
      } in
      rw still moved
]

pub close-IsPooled : (t : Transport) → IsPooled (close t)
unfolding close
close-IsPooled t = drop_connection-IsPooled (record t { closed = true })

pub pooled_or_new-Addresses :
    (conn : Option Connection) (config : ResolvedConfig)
    → KeptFor config conn
    → Addresses config (pooled_or_new conn config)
pooled_or_new-Addresses none config k = connect-Addresses config
pooled_or_new-Addresses (some c) config k =
    if-cases (Addresses config) config.keep_alive c (connect config) (λ h. k.0)
      (λ h. connect-Addresses config)

pub connection-IsPooled :
    (t : Transport) → t.closed ≡ false → IsPooled t → IsPooled (connection t).1
unfolding connection
connection-IsPooled t live p =
    let c = pooled_or_new t.conn t.config in
    if-cases IsPooled t.config.keep_alive (record t { conn = some c }) t
      (λ on. record {
        kept = (pooled_or_new-Addresses t.conn t.config p.kept, on);
        released = λ h. ground arith;
      })
      (λ off. p)

note-IsPooled : (x : Event) (t : Transport) → IsPooled t → IsPooled (note x t)
note-IsPooled x t p = record { kept = p.kept; released = p.released }

module _ {W : Type 0} (net : Net W) where
  received-IsPooled :
      (status : ℕ) (raw : String) (t : Transport) (r : Result (Option ℕ) × W)
      → IsPooled t
      → IsPooled (received net status raw t r).1
  received-IsPooled status raw t (raised e, w) p = p
  received-IsPooled status raw t (ok retry_after, w) p =
      if-cases IsPooled t.config.keep_alive t (drop_connection t) (λ h. p)
        (λ h. drop_connection-IsPooled t)

  settle-IsPooled : (t : Transport) (r : Outcome × W) → IsPooled t → IsPooled (settle net t r).1
  unfolding settle
  settle-IsPooled t (response status raw header, w) p =
      received-IsPooled status raw t (parse_retry_after net header w) p
  settle-IsPooled t (timed_out, w) p = drop_connection-IsPooled t
  settle-IsPooled t (failed text name, w) p = drop_connection-IsPooled t
  settle-IsPooled t (broke name, w) p = p

  exchange_on-IsPooled :
      (request : Request) (r : Connection × Transport) (w : W)
      → IsPooled r.1
      → IsPooled (exchange_on net request r w).1
  exchange_on-IsPooled request (c, t) w p =
      settle-IsPooled (note _ t) (net.exchange c request w) (note-IsPooled _ t p)

  send_request-IsPooled :
      (request : Request) (t : Transport) (w : W)
      → IsPooled t
      → IsPooled (send_request net request t w).1
  unfolding send_request
  send_request-IsPooled request t w p =
      if-cases {A = Result Value × Transport × W} (λ r. IsPooled r.1) t.closed _ _ (λ h. p)
        (λ live. exchange_on-IsPooled request (connection t) w (connection-IsPooled t live p))

  post_payload-IsPooled :
      (path : String) (dumped : Result String) (t : Transport) (w : W)
      → IsPooled t
      → IsPooled (post_payload net path dumped t w).1
  post_payload-IsPooled path (raised e) t w p = p
  post_payload-IsPooled path (ok payload) t w p =
      send_request-IsPooled (request_for t path payload) (debug_log path t) w (
        if-cases IsPooled (truthy t.config.debug) (note (logged path) t) t
          (λ h. note-IsPooled (logged path) t p) (λ h. p))

  pub post-IsPooled :
      (path : String) (body : Value) (t : Transport) (w : W)
      → IsPooled t
      → IsPooled (post net path body t w).1
  unfolding post
  post-IsPooled path body t w p = post_payload-IsPooled path (net.dumps body) t w p
