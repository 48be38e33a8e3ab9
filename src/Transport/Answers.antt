-- ===== src/Transport/Answers.antt =====
-- What `Transport.post` returns and raises, and what it sends.
use intempt_python.Prelude.{
  ℕ, String, false, ◌||◌, Option, none, some, List, [], ◌∷◌, ◌≡◌, ◌≤◌, ◌<◌, ◌⊎◌, inl, inr, refl,
  arith, Bool-cases, Option-cases, if-cases, leb, ltb,
}
use intempt_python.Errors.{Error, other_error}
use intempt_python.Python.Result.{Result, ok, raised}
use intempt_python.Python.Value.{Value, truthy}
use intempt_python.Transport.RetryAfter.{parse_retry_after}
use intempt_python.Transport.State.{
  Connection, Request, Outcome, response, timed_out, failed, broke, Event, requested, closed,
  logged, Net, Transport, note, drop_connection, connection,
}
use intempt_python.Transport.Post.{
  no_response, bad_status, request_for, decode, answer, received, settle, exchange_on, send_request,
  post,
}
use intempt_python.Transport.Pool.{
  Addresses, IsPooled, drop_connection_lem, pooled_or_new-Addresses,
}

-- The requests of a trace, the latest first.
abbrev pub exchanges : List Event → List (Connection × Request)
exchanges [] = []
exchanges (requested c r ∷ xs) = (c, r) ∷ exchanges xs
exchanges (closed c ∷ xs) = exchanges xs
exchanges (logged path ∷ xs) = exchanges xs

pub exchanges-drop_connection :
    (t : Transport) → exchanges (drop_connection t).trace ≡ exchanges t.trace
unfolding drop_connection
exchanges-drop_connection t = elim (Option-cases t.conn) [ inl e ↦ rw e | inr (c, e) ↦ rw e ]

abbrev pub IsSuccess : ℕ → Type 0
IsSuccess status = (200 ≤ status) × (status < 300)

abbrev pub FailsUnanswered : Result Value → Transport → Type 0
FailsUnanswered r t = ((message : String) × (r ≡ raised (no_response message))) × (t.conn ≡ none)

module _ {W : Type 0} (net : Net W) where
  -- How a result of `post`, and the transport after it, follow from the outcome of the exchange.
  abbrev pub Explains : Outcome × W → Result Value → Transport → Type 0
  Explains (response status raw header, w) r t =
      (IsSuccess status × (r ≡ ok (decode net raw)))
      ⊎ ((((status < 200) ⊎ (300 ≤ status))
            × (ms : Option ℕ) × ((parse_retry_after net header w).0 ≡ ok ms)
            × (r ≡ raised (bad_status status raw ms)))
          ⊎ ((e : Error) × ((parse_retry_after net header w).0 ≡ raised e) × (r ≡ raised e)))
  Explains (timed_out, w) r t = FailsUnanswered r t
  Explains (failed text name, w) r t = FailsUnanswered r t
  Explains (broke name, w) r t = r ≡ raised (other_error name)

  answer_lem :
      (status : ℕ) (raw : String) (ms : Option ℕ)
      → (IsSuccess status × (answer net status raw ms ≡ ok (decode net raw)))
        ⊎ (((status < 200) ⊎ (300 ≤ status))
            × (answer net status raw ms ≡ raised (bad_status status raw ms)))
  unfolding answer
  answer_lem status raw ms = elim (Bool-cases (ltb status 200 || leb 300 status)) [
    | inl bad ↦ inr (ground arith, rw bad)
    | inr good ↦ inl ((ground arith, ground arith), rw good)
  ]

  received-Explains :
      (status : ℕ) (raw : String) (header : Option String) (w : W) (t : Transport)
      (m : Result (Option ℕ) × W)
      → parse_retry_after net header w ≡ m
      → Explains
          (response status raw header, w)
          (received net status raw t m).0
          (received net status raw t m).1
  received-Explains status raw header w t (raised e, w') same = inr (inr (e, rw same, refl))
  received-Explains status raw header w t (ok ms, w') same = elim (answer_lem status raw ms) [
    | inl good ↦ inl good
    | inr (bad, e) ↦ inr (inl (bad, ms, rw same, e))
  ]

  settle-Explains :
      (t : Transport) (o : Outcome × W) → Explains o (settle net t o).0 (settle net t o).1
  unfolding settle
  settle-Explains t (response status raw header, w) =
      received-Explains status raw header w t (parse_retry_after net header w) refl
  settle-Explains t (timed_out, w) = ((_, refl), (drop_connection_lem t).0)
  settle-Explains t (failed text name, w) = ((_, refl), (drop_connection_lem t).0)
  settle-Explains t (broke name, w) = refl

  exchanges-received :
      (status : ℕ) (raw : String) (t : Transport) (m : Result (Option ℕ) × W)
      → exchanges (received net status raw t m).1.trace ≡ exchanges t.trace
  exchanges-received status raw t (raised e, w) = refl
  exchanges-received status raw t (ok ms, w) =
      if-cases (λ t'. exchanges t'.trace ≡ exchanges t.trace) t.config.keep_alive t
        (drop_connection t) (λ h. refl) (λ h. exchanges-drop_connection t)

  pub exchanges-settle :
      (t : Transport) (o : Outcome × W) → exchanges (settle net t o).1.trace ≡ exchanges t.trace
  unfolding settle
  exchanges-settle t (response status raw header, w) =
      exchanges-received status raw t (parse_retry_after net header w)
  exchanges-settle t (timed_out, w) = exchanges-drop_connection t
  exchanges-settle t (failed text name, w) = exchanges-drop_connection t
  exchanges-settle t (broke name, w) = refl

  -- How a call of `post` that ended in `r` follows from the one exchange that it made.
  pub record Answered (t : Transport) (request : Request) (w : W) (r : Result Value × Transport × W)
      : Type 0 where
    pub address : Addresses t.config (connection t).0
    pub sent : exchanges r.1.trace ≡ ((connection t).0, request) ∷ exchanges t.trace
    pub explained : Explains (net.exchange (connection t).0 request w) r.0 r.1

  pub stored_trace : (t : Transport) → exchanges (connection t).1.trace ≡ exchanges t.trace
  unfolding connection
  stored_trace t =
      let c = (connection t).0 in
      if-cases (λ t'. exchanges t'.trace ≡ exchanges t.trace) t.config.keep_alive
        (record t { conn = some c }) t (λ h. refl) (λ h. refl)

  send_request-Answered :
      (request : Request) (t : Transport) (w : W)
      → t.closed ≡ false
      → IsPooled t
      → Answered t request w (send_request net request t w)
  unfolding send_request connection
  send_request-Answered request t w live p =
      let c = (connection t).0 in
      let t' : Transport = note (requested c request) (connection t).1 in
      if-cases (Answered t request w) t.closed (raised (no_response "client is closed"), t, w)
        (exchange_on net request (connection t) w) (λ h. ground arith)
        (λ h. record {
          address = pooled_or_new-Addresses t.conn t.config p.kept;
          sent = rw (exchanges-settle t' (net.exchange c request w)) (rw (stored_trace t));
          explained = settle-Explains t' (net.exchange c request w);
        })

  noted-Answered :
      (request : Request) (path : String) (t : Transport) (w : W)
      → t.closed ≡ false
      → IsPooled t
      → Answered t request w (send_request net request (note (logged path) t) w)
  unfolding connection
  noted-Answered request path t w live p =
      let a =
        send_request-Answered request (note (logged path) t) w live
          (record { kept = p.kept; released = p.released }) in
      record { address = a.address; sent = a.sent; explained = a.explained }

  -- On an open transport, if the body can be dumped as JSON, `post` makes one request: with the
  -- payload and the headers of `request_for`, on a connection to the configured host, port and scheme.
  -- A status from 200 to 299 returns the decoded body, any other raises an `IntemptApiError` with that
  -- status, the body and what `parse_retry_after` made of the header; an error of that parser escapes.
  -- A timeout, an `HTTPException` or an `OSError` raises an `IntemptApiError` without a status and
  -- leaves no connection behind; any other exception of the exchange escapes.
  pub post-Answered :
      (path payload : String) (body : Value) (t : Transport) (w : W)
      → net.dumps body ≡ ok payload
      → t.closed ≡ false
      → IsPooled t
      → Answered t (request_for t path payload) w (post net path body t w)
  unfolding post
  post-Answered path payload body t w dumped live p =
      let request = request_for t path payload in
      rw dumped (
        if-cases (λ t'. Answered t request w (send_request net request t' w))
          (truthy t.config.debug) (note (logged path) t) t
          (λ h. noted-Answered request path t w live p)
          (λ h. send_request-Answered request t w live p))
