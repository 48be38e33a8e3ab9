-- ===== src/Client/Events.antt =====
-- intempt/_client.py: the methods that build events, and `track_batch`.
pub mod Atomic
pub mod Pool
use Prim.Native.String.{◌++◌}
use intempt_python.Prelude.{
  ℕ, zero, suc, ◌+◌, String, Bool, true, false, ◌||◌, not, Option, none, some, List, [], ◌∷◌,
  length, leb, if◌then◌else◌,
}
use intempt_python.Buffer.State.{Buffer}
use intempt_python.Config.Batch.{int_of}
use intempt_python.Errors.{Error, config_error, other_error}
use intempt_python.Python.Float.{ℤ, pos, negsuc, Float, finite, scale, is_negative, subtract}
use intempt_python.Python.Result.{Result, ok, raised, ◌>>=◌, ◌>>◌}
use intempt_python.Python.Text.{is_blank, strip, lowers_to}
use intempt_python.Python.Value.{
  Value, null, int, float, str, list, dict, nil, cons, Options, get, without, items_of, fields_of,
  decimal,
}
use intempt_python.Client.Session.{
  Outside, Session, Client, is_opted_in, items, fields, send, submit,
}
use intempt_python.Util.{
  int_of_float, ensure_timestamp, chunk, compact, non_blank, require_identifier,
}

-- `_assert_event_name`
unfoldable pub assert_event_name : Value → String → Result String
assert_event_name (str event) method =
    if is_blank event
    then raised (config_error (method ++ ": event name is required"))
    else if lowers_to (strip event) "identify"
    then raised
        (config_error (method ++ ": \"" ++ event ++ "\" is reserved; use identify() or group()"))
    else ok event
assert_event_name v method = raised (config_error (method ++ ": event name is required"))

-- `_reserved_name`
unfoldable pub reserved_name : Value → String → Result String
reserved_name null method = ok "Identify"
reserved_name event method = non_blank event method "event"

-- The dictionary that `_build_event` returns.
unfoldable pub event_of : String → Options → String → ℤ → Value
event_of name options id millis =
    let item : Options = compact (
      ("eventId", str id)
      ∷ ("timestamp", int millis)
      ∷ ("profileId", get "profile_id" options)
      ∷ ("userId", get "user_id" options)
      ∷ ("accountId", get "account_id" options)
      ∷ ("data", get "properties" options)
      ∷ ("userAttributes", get "user_attributes" options)
      ∷ ("accountAttributes", get "account_attributes" options)
      ∷ []) in
    dict (fields (("name", str name) ∷ ("payload", list (items (dict (fields item) ∷ []))) ∷ []))

-- `index` as `track_batch[index]`
abbrev pub at_index : ℕ → String
at_index index = "track_batch[" ++ (decimal (pos index) ++ "]")

abbrev pub prepend : {W : Type 0} → Value → Result (List Value) × W → Result (List Value) × W
prepend event (m, w) = (m >>= λ events. ok (event ∷ events), w)

module _ {W : Type 0} (out : Outside W) where
  -- `_now_ms`
  unfoldable pub now_ms : W → Result ℤ × W
  now_ms w = let (now, w') = out.now w in (int_of_float (scale 1000 now), w')

  abbrev pub millis_of : Value → W → Result ℤ × W
  millis_of null w = now_ms w
  millis_of raw w = (ensure_timestamp raw, w)

  abbrev pub stamped : String → Options → String → Result ℤ × W → Result Value × W
  stamped name options id (m, w) = (m >>= λ millis. ok (event_of name options id millis), w)

  -- `_build_event`
  unfoldable pub build_event : String → Options → W → Result Value × W
  build_event name options w =
      let (id, w') = out.uuid w in stamped name options id (millis_of (get "timestamp" options) w')

  abbrev pub submit_built : Client → Result Value × W → Option (Result (Unit {0}) × (Client × W))
  submit_built c (raised e, w) = some (raised e, (c, w))
  submit_built c (ok event, w) = submit out (event ∷ []) c w

  -- A call that builds one event from a checked name.
  abbrev pub submit_named :
      Result String → Options → Client → W → Option (Result (Unit {0}) × (Client × W))
  submit_named (raised e) options c w = some (raised e, (c, w))
  submit_named (ok name) options c w = submit_built c (build_event name options w)

  unfoldable pub track : Value → Options → Client → W → Option (Result (Unit {0}) × (Client × W))
  track event options c w =
      submit_named
        (assert_event_name event "track" >>= λ name. require_identifier options "track" >> ok name)
        options c w

  -- `{**options, ...}` is read by `get` alone, so what is added stands in front.
  unfoldable pub identify : Options → Client → W → Option (Result (Unit {0}) × (Client × W))
  identify options c w =
      submit_named
        (require_identifier options "identify" >> reserved_name (get "event" options) "identify")
        (("user_attributes", get "traits" options) ∷ without "event" (without "traits" options)) c w

  unfoldable pub group : Value → Options → Client → W → Option (Result (Unit {0}) × (Client × W))
  group account_id options c w =
      submit_named
        (non_blank account_id "group" "account_id" >>= λ id.
          reserved_name (get "event" options) "group")
        (("account_id", account_id)
          ∷ ("account_attributes", get "attributes" options)
          ∷ without "event" (without "attributes" options))
        c w

  -- The checks of one turn of the loop in `track_batch`, with the item's name and the rest of it.
  unfoldable pub check_item : ℕ → Value → Result (String × Options)
  check_item index (dict fs) = do
    let item = fields_of fs
    name ← assert_event_name (get "event" item) (at_index index)
    require_identifier item (at_index index)
    ok (name, without "event" item)
  check_item index v = raised (config_error (at_index index ++ ": each event must be a mapping"))

  abbrev pub build_checked : Result (String × Options) → W → Result Value × W
  build_checked (raised e) w = (raised e, w)
  build_checked (ok (name, rest)) w = build_event name rest w

  abbrev pub then_build : (W → Result (List Value) × W) → Result Value × W → Result (List Value) × W
  then_build next (raised e, w) = (raised e, w)
  then_build next (ok event, w) = prepend event (next w)

  -- The loop that makes `wire`.
  unfoldable pub build_all : ℕ → List Value → W → Result (List Value) × W
  build_all index [] w = (ok [], w)
  build_all index (item ∷ rest) w =
      then_build (build_all (index + 1) rest) (build_checked (check_item index item) w)

  -- `for group in groups: self._send(group)`
  abbrev pub then_send :
      (Session → W → Result (Unit {0}) × Session × W)
      → Result (Unit {0}) × Session × W
      → Result (Unit {0}) × Session × W
  then_send next (raised e, s, w) = (raised e, s, w)
  then_send next (ok u, s, w) = next s w

  unfoldable pub send_groups : List (List Value) → Session → W → Result (Unit {0}) × Session × W
  send_groups [] s w = (ok tt, s, w)
  send_groups (g ∷ groups) s w = then_send (send_groups groups) (send out g s w)

  -- The first error, once every group has been sent.
  abbrev pub first_error :
      Result (Unit {0}) → Result (Unit {0}) × Session × W → Result (Unit {0}) × Session × W
  first_error (raised e) (r, s, w) = (raised e, s, w)
  first_error (ok u) rsw = rsw

  abbrev pub then_settle :
      (Session → W → Result (Unit {0}) × Session × W)
      → Result (Unit {0}) × Session × W
      → Result (Unit {0}) × Session × W
  then_settle next (r, s, w) = first_error r (next s w)

  -- The groups on a thread pool. The transport's lock lets one exchange run at a time; this is the
  -- order of submission.
  unfoldable pub send_all : List (List Value) → Session → W → Result (Unit {0}) × Session × W
  send_all [] s w = (ok tt, s, w)
  send_all (g ∷ groups) s w = then_settle (send_all groups) (send out g s w)

  -- `max_concurrent_requests <= 1`; what is no integer is taken to raise, as `None` does.
  abbrev pub at_most_one : ℤ → Bool
  at_most_one (pos n) = leb n 1
  at_most_one (negsuc n) = true

  abbrev pub run_groups :
      Option ℤ → List (List Value) → Session → W → Result (Unit {0}) × Session × W
  run_groups none groups s w = (raised (other_error "TypeError"), s, w)
  run_groups (some limit) groups s w =
      if at_most_one limit then send_groups groups s w else send_all groups s w

  abbrev pub send_chunked :
      Result (List (List Value)) → Session → W → Result (Unit {0}) × Session × W
  send_chunked (raised e) s w = (raised e, s, w)
  send_chunked (ok groups) s w = run_groups (int_of s.config.max_concurrent_requests) groups s w

  -- `chunk(wire, self._config.max_request_events)`; what is no integer is taken to raise.
  abbrev pub chunk_by : Option ℤ → List Value → Result (List (List Value))
  chunk_by none wire = raised (other_error "TypeError")
  chunk_by (some size) wire = chunk wire size

  abbrev pub in_session :
      Client → Result (Unit {0}) × Session × W → Option (Result (Unit {0}) × (Client × W))
  in_session c (r, s, w) = some (r, (record c { session = s }, w))

  abbrev pub has_buffer : Option (Buffer Value) → Bool
  has_buffer none = false
  has_buffer (some b) = true

  -- `track_batch` once the loop has run.
  unfoldable pub deliver_wire :
      Client → Result (List Value) × W → Option (Result (Unit {0}) × (Client × W))
  deliver_wire c (raised e, w) = some (raised e, (c, w))
  deliver_wire c (ok wire, w) =
      if has_buffer c.buffer || not (is_opted_in c.session)
      then submit out wire c w
      else in_session c
          (send_chunked (chunk_by (int_of c.session.config.max_request_events) wire) c.session w)

  unfoldable pub track_batch : Value → Client → W → Option (Result (Unit {0}) × (Client × W))
  track_batch (list nil) c w = some (ok tt, (c, w))
  track_batch (list (cons v vs)) c w = deliver_wire c (build_all 0 (v ∷ items_of vs) w)
  track_batch events c w =
      some (raised (config_error "track_batch: events must be a sequence"), (c, w))
