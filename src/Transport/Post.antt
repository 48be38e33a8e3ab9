-- ===== src/Transport/Post.antt =====
-- intempt/_transport.py: `Transport.post`.
use Prim.Native.String.{◌++◌}
use intempt_python.Prelude.{
  ℕ, String, ◌||◌, Option, none, some, [], ◌∷◌, length, leb, ltb, if◌then◌else◌,
}
use intempt_python.Config.Credentials.{authorization_header}
use intempt_python.Errors.{Error, api_error, other_error}
use intempt_python.Python.Encode.{utf8}
use intempt_python.Python.Float.{pos}
use intempt_python.Python.Result.{Result, ok, raised}
use intempt_python.Python.Text.{is_nil}
use intempt_python.Python.Value.{Value, null, str, truthy, decimal}
use intempt_python.Transport.RetryAfter.{parse_retry_after}
use intempt_python.Transport.State.{
  Connection, Request, Outcome, response, timed_out, failed, broke, requested, logged, Net,
  Transport, note, drop_connection, connection,
}

abbrev pub lib_name : String
lib_name = "intempt-python"

-- `__version__` of intempt/__init__.py
abbrev pub version : String
version = "2.0.0"

-- The error of an exchange without a response: it has no status.
abbrev pub no_response : String → Error
no_response message =
    api_error (record { message = message; status = none; body = none; retry_after_ms = none })

abbrev pub bad_status : ℕ → String → Option ℕ → Error
bad_status status raw retry_after = api_error (record {
  message = "Intempt API responded " ++ decimal (pos status);
  status = some status;
  body = some raw;
  retry_after_ms = retry_after;
})

-- `str(exc) or type(exc).__name__`
abbrev pub text_or_name : String → String → String
text_or_name text name = if is_nil text then name else text

unfoldable pub request_for : Transport → String → String → Request
request_for t path payload = record {
  path = path;
  payload = payload;
  headers =
      ("Content-Type", "application/json")
      ∷ ("Content-Length", decimal (pos (length (utf8 payload))))
      ∷ ("Authorization", authorization_header t.credentials)
      ∷ ("X-Intempt-Lib", lib_name ++ ("/" ++ version))
      ∷ ("Connection", (if t.config.keep_alive then "keep-alive" else "close"))
      ∷ [];
}

abbrev pub debug_log : String → Transport → Transport
debug_log path t = if truthy t.config.debug then note (logged path) t else t

module _ {W : Type 0} (net : Net W) where
  -- The body of a response of success.
  abbrev parsed : String → Option Value → Value
  parsed raw none = str raw
  parsed raw (some v) = v

  unfoldable pub decode : String → Value
  decode raw = if is_nil raw then null else parsed raw (net.loads raw)

  -- What `post` makes of a response, the lock released.
  unfoldable pub answer : ℕ → String → Option ℕ → Result Value
  answer status raw retry_after =
      if ltb status 200 || leb 300 status
      then raised (bad_status status raw retry_after)
      else ok (decode raw)

  -- The rest of the `try` block, and what follows; an exception of `parse_retry_after` is none of
  -- those caught.
  abbrev pub received :
      ℕ → String → Transport → Result (Option ℕ) × W → Result Value × Transport × W
  received status raw t (raised e, w) = (raised e, t, w)
  received status raw t (ok retry_after, w) =
      (answer status raw retry_after, (if t.config.keep_alive then t else drop_connection t), w)

  unfoldable pub settle : Transport → Outcome × W → Result Value × Transport × W
  settle t (response status raw header, w) = received status raw t (parse_retry_after net header w)
  settle t (timed_out, w) = (
    raised (no_response ("request timed out after " ++ (net.show_float t.config.timeout ++ "s"))),
    drop_connection t,
    w,
  )
  settle t (failed text name, w) =
      (raised (no_response (text_or_name text name)), drop_connection t, w)
  settle t (broke name, w) = (raised (other_error name), t, w)

  -- The exchange on the connection that `_connection` returned.
  abbrev pub exchange_on : Request → Connection × Transport → W → Result Value × Transport × W
  exchange_on request (c, t) w = settle (note (requested c request) t) (net.exchange c request w)

  -- What runs under the lock.
  unfoldable pub send_request : Request → Transport → W → Result Value × Transport × W
  send_request request t w =
      if t.closed
      then (raised (no_response "client is closed"), t, w)
      else exchange_on request (connection t) w

  -- `post` once `json.dumps` has run.
  abbrev pub post_payload : String → Result String → Transport → W → Result Value × Transport × W
  post_payload path (raised e) t w = (raised e, t, w)
  post_payload path (ok payload) t w =
      send_request (request_for t path payload) (debug_log path t) w

  unfoldable pub post : String → Value → Transport → W → Result Value × Transport × W
  post path body t w = post_payload path (net.dumps body) t w
