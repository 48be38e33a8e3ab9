-- ===== src/Transport/Sent.antt =====
-- What a `Transport` has sent: the payloads of its requests, under each of its methods.
use intempt_python.Prelude.{
  ℕ, String, false, Option, some, List, [], ◌∷◌, ◌++◌, ◌≡◌, ◌∙◌, arith, if-cases, ap,
}
use intempt_python.Python.Result.{Result, ok, raised}
use intempt_python.Python.Value.{Value, truthy}
use intempt_python.Transport.State.{
  Connection, Request, Outcome, response, timed_out, failed, broke, Net, Transport,
  note as note_event, drop_connection, connection,
}
use intempt_python.Transport.State.{logged as logged_event}
use intempt_python.Transport.RetryAfter.{parse_retry_after}
use intempt_python.Transport.Post.{
  request_for, debug_log, settle, received, exchange_on, send_request, post_payload, post,
}
use intempt_python.Transport.Pool.{drop_connection_lem}
use intempt_python.Transport.Answers.{exchanges, exchanges-drop_connection}

abbrev pub payloads_of : List (Connection × Request) → List String
payloads_of [] = []
payloads_of ((c, r) ∷ xs) = r.payload ∷ payloads_of xs

-- The payloads of the requests that a transport has made, the latest first.
abbrev pub payloads : Transport → List String
payloads t = payloads_of (exchanges t.trace)

-- What a body adds to them: what `json.dumps` raises on is not sent.
abbrev pub dumped : Result String → List String
dumped (raised e) = []
dumped (ok payload) = payload ∷ []

-- A transport that is open and has sent just this.
pub record HasSent (base : List String) (t : Transport) : Type 0 where
  pub closed : t.closed ≡ false
  pub sent : payloads t ≡ base

note-HasSent :
    (x : String) (sent : List String) (t : Transport)
    → HasSent sent t
    → HasSent sent (note_event (logged_event x) t)
note-HasSent x sent t h = record { closed = h.closed; sent = h.sent }

drop_connection-HasSent :
    (sent : List String) (t : Transport) → HasSent sent t → HasSent sent (drop_connection t)
drop_connection-HasSent sent t h = record {
  closed = (drop_connection_lem t).2 ∙ h.closed;
  sent = ap payloads_of (exchanges-drop_connection t) ∙ h.sent;
}

connection-HasSent :
    (sent : List String) (t : Transport) → HasSent sent t → HasSent sent (connection t).1
unfolding connection
connection-HasSent sent t h =
    if-cases (HasSent sent) t.config.keep_alive (record t { conn = some (connection t).0 }) t
      (λ _. record { closed = h.closed; sent = h.sent }) (λ _. h)

module _ {W : Type 0} (net : Net W) where
  received-HasSent :
      (status : ℕ) (raw : String) (sent : List String) (t : Transport) (m : Result (Option ℕ) × W)
      → HasSent sent t
      → HasSent sent (received net status raw t m).1
  received-HasSent status raw sent t (raised e, w) h = h
  received-HasSent status raw sent t (ok ms, w) h =
      if-cases (HasSent sent) t.config.keep_alive t (drop_connection t) (λ _. h)
        (λ _. drop_connection-HasSent sent t h)

  settle-HasSent :
      (sent : List String) (t : Transport) (o : Outcome × W)
      → HasSent sent t
      → HasSent sent (settle net t o).1
  unfolding settle
  settle-HasSent sent t (response status raw header, w) h =
      received-HasSent status raw sent t (parse_retry_after net header w) h
  settle-HasSent sent t (timed_out, w) h = drop_connection-HasSent sent t h
  settle-HasSent sent t (failed text name, w) h = drop_connection-HasSent sent t h
  settle-HasSent sent t (broke name, w) h = h

  exchange_on-HasSent :
      (request : Request) (sent : List String) (r : Connection × Transport) (w : W)
      → HasSent sent r.1
      → HasSent (request.payload ∷ sent) (exchange_on net request r w).1
  exchange_on-HasSent request sent (c, t) w h =
      settle-HasSent (request.payload ∷ sent) _ (net.exchange c request w)
        (record { closed = h.closed; sent = ap (λ xs. request.payload ∷ xs) h.sent })

  send_request-HasSent :
      (request : Request) (sent : List String) (t : Transport) (w : W)
      → HasSent sent t
      → HasSent (request.payload ∷ sent) (send_request net request t w).1
  unfolding send_request
  send_request-HasSent request sent t w h =
      if-cases {A = Result Value × Transport × W} (λ r. HasSent (request.payload ∷ sent) r.1)
        t.closed _ _ (λ shut. absurd (ground (arith, h.closed)))
        (λ live. exchange_on-HasSent request sent (connection t) w (connection-HasSent sent t h))

  debug_log-HasSent :
      (path : String) (sent : List String) (t : Transport)
      → HasSent sent t
      → HasSent sent (debug_log path t)
  debug_log-HasSent path sent t h =
      if-cases (HasSent sent) (truthy t.config.debug) (note_event (logged_event path) t) t
        (λ _. note-HasSent path sent t h) (λ _. h)

  post_payload-HasSent :
      (path : String) (sent : List String) (d : Result String) (t : Transport) (w : W)
      → HasSent sent t
      → HasSent (dumped d ++ sent) (post_payload net path d t w).1
  unfolding request_for
  post_payload-HasSent path sent (raised e) t w h = h
  post_payload-HasSent path sent (ok payload) t w h =
      send_request-HasSent (request_for t path payload) sent (debug_log path t) w
        (debug_log-HasSent path sent t h)

  -- A call of `post` on an open transport sends its body, once, unless `json.dumps` raises.
  pub post-HasSent :
      (path : String) (body : Value) (sent : List String) (t : Transport) (w : W)
      → HasSent sent t
      → HasSent (dumped (net.dumps body) ++ sent) (post net path body t w).1
  unfolding post
  post-HasSent path body sent t w h = post_payload-HasSent path sent (net.dumps body) t w h
