-- ===== src/Client/Events/Atomic.antt =====
-- `track_batch` checks every event before anything leaves the client, and keeps their order.
use intempt_python.Prelude.{
  ℕ, ◌+◌, String, Bool, true, false, ◌&&◌, ◌||◌, not, Option, none, some, List, [], ◌∷◌, map, ◌≡◌,
  refl, arith, Returns,
}
use intempt_python.Python.Float.{ℤ}
use intempt_python.Python.Result.{
  Result, ok, raised, Ensures, Ensures-ok, Ensures-weaken, bind-Ensures,
}
use intempt_python.Python.Text.{is_blank, strip, lowers_to}
use intempt_python.Python.Value.{
  Value, str, list, dict, Items, nil, cons, Options, get, present, items_of, fields_of,
}
use intempt_python.Client.Session.{Outside, Client, name_text, event_name}
use intempt_python.Client.Events.{
  assert_event_name, event_of, at_index, prepend, stamped, millis_of, build_event, check_item,
  build_checked, then_build, build_all, deliver_wire, track_batch,
}
use intempt_python.Util.{require_identifier}

-- An event name that may be tracked.
abbrev pub nameable : Value → Bool
nameable (str s) = not (is_blank s || lowers_to (strip s) "identify")
nameable v = false

abbrev pub identified : Options → Bool
identified item =
    present (get "user_id" item)
    || (present (get "account_id" item) || present (get "profile_id" item))

-- An item that `track_batch` accepts: a mapping with such a name, and with an identifier.
abbrev pub trackable : Value → Bool
trackable (dict fs) = nameable (get "event" (fields_of fs)) && identified (fields_of fs)
trackable v = false

abbrev pub all_trackable : List Value → Bool
all_trackable [] = true
all_trackable (v ∷ vs) = trackable v && all_trackable vs

abbrev pub Raises {ℓ} : {A : Type ℓ} → Result A → Type 0
Raises (ok a) = ⊥
Raises (raised e) = Unit

-- A name that is returned is the one that was given, and may be tracked.
assert_event_name_lem :
    (v : Value) (method : String)
    → Ensures (λ name. (v ≡ str name) × (nameable v ≡ true)) (assert_event_name v method)
unfolding assert_event_name
assert_event_name_lem (str s) method = ground arith
assert_event_name_lem _ method = tt

require_identifier_lem :
    (item : Options) (method : String)
    → Ensures (λ u. identified item ≡ true) (require_identifier item method)
unfolding require_identifier
require_identifier_lem item method = ground arith

abbrev pub name_of : Value → Option String
name_of (dict fs) = name_text (get "event" (fields_of fs))
name_of v = none

abbrev pub Mirrors : List Value → List Value → Type 0
Mirrors vs wire = (all_trackable vs ≡ true) × (map event_name wire ≡ map name_of vs)

module _ {W : Type 0} (out : Outside W) where
  -- An item that is accepted is trackable, and its name is the one of its event.
  check_item_lem :
      (index : ℕ) (v : Value)
      → Ensures
          (λ (name, rest). (trackable v ≡ true) × (name_of v ≡ some name))
          (check_item out index v)
  unfolding check_item
  check_item_lem index (dict fs) =
      let item = fields_of fs in
      let Q =
        λ (r : String × Options). (trackable (dict fs) ≡ true) × (name_of (dict fs) ≡ some r.0) in
      bind-Ensures Q (assert_event_name (get "event" item) (at_index index)) _ λ name named.
        bind-Ensures Q (require_identifier item (at_index index)) _ λ u known.
          let (is_name, may) =
            Ensures-ok _ _ name (assert_event_name_lem (get "event" item) (at_index index)) named in
          let has = Ensures-ok _ _ u (require_identifier_lem item (at_index index)) known in
          (rw may (rw has), rw is_name)
  check_item_lem index _ = tt

  event_name-event_of :
      (name id : String) (options : Options) (millis : ℤ)
      → event_name (event_of name options id millis) ≡ some name
  unfolding event_of get
  event_name-event_of name id options millis = refl

  stamped_lem :
      (name : String) (options : Options) (id : String) (m : Result ℤ × W)
      → Ensures (λ event. event_name event ≡ some name) (stamped out name options id m).0
  stamped_lem name options id (raised e, w) = tt
  stamped_lem name options id (ok millis, w) = event_name-event_of name id options millis

  -- What `build_event` returns bears the name.
  build_event_lem :
      (name : String) (options : Options) (w : W)
      → Ensures (λ event. event_name event ≡ some name) (build_event out name options w).0
  unfolding build_event
  build_event_lem name options w =
      let (id, w') = out.uuid w in
      stamped_lem name options id (millis_of out (get "timestamp" options) w')

  -- One turn of the loop: what it built bears the item's name, and the item was trackable.
  build_checked_lem :
      (v : Value) (m : Result (String × Options)) (w : W)
      → Ensures (λ (name, rest). (trackable v ≡ true) × (name_of v ≡ some name)) m
      → Ensures
          (λ event. (trackable v ≡ true) × (event_name event ≡ name_of v))
          (build_checked out m w).0
  build_checked_lem v (raised e) w h = tt
  build_checked_lem v (ok (name, rest)) w h =
      Ensures-weaken _ _ (build_event out name rest w).0 (λ event same. (h.0, rw h.1 same))
        (build_event_lem name rest w)

  prepend_lem :
      (v : Value) (vs : List Value) (event : Value) (rest : Result (List Value) × W)
      → (trackable v ≡ true) × (event_name event ≡ name_of v)
      → Ensures (Mirrors vs) rest.0
      → Ensures (Mirrors (v ∷ vs)) (prepend event rest).0
  prepend_lem v vs event (raised e, w) h k = tt
  prepend_lem v vs event (ok wire, w) h k = (rw h.0 k.0, rw h.1 (rw k.1))

  then_build_lem :
      (v : Value) (vs : List Value) (next : W → Result (List Value) × W) (built : Result Value × W)
      → Ensures (λ event. (trackable v ≡ true) × (event_name event ≡ name_of v)) built.0
      → ((w : W) → Ensures (Mirrors vs) (next w).0)
      → Ensures (Mirrors (v ∷ vs)) (then_build out next built).0
  then_build_lem v vs next (raised e, w) h k = tt
  then_build_lem v vs next (ok event, w) h k = prepend_lem v vs event (next w) h (k w)

  -- When the loop of `track_batch` ends without an error, every item is trackable, and the wire holds
  -- one event for each item, in order and under the item's name.
  pub build_all-Mirrors :
      (index : ℕ) (vs : List Value) (w : W) → Ensures (Mirrors vs) (build_all out index vs w).0
  unfolding build_all
  build_all-Mirrors index [] w = (refl, refl)
  build_all-Mirrors index (v ∷ vs) w =
      then_build_lem v vs (build_all out (index + 1) vs)
        (build_checked out (check_item out index v) w)
        (build_checked_lem v (check_item out index v) w (check_item_lem index v))
        (build_all-Mirrors (index + 1) vs)

  -- The call raised, and the client is as it was.
  abbrev pub Refuses : Client → Option (Result (Unit {0}) × (Client × W)) → Type 0
  Refuses c = Returns (λ (r, (c', w')). Raises r × (c' ≡ c))

  deliver_wire-Refuses :
      (vs : List Value) (c : Client) (r : Result (List Value) × W)
      → all_trackable vs ≡ false
      → Ensures (Mirrors vs) r.0
      → Refuses c (deliver_wire out c r)
  unfolding deliver_wire
  deliver_wire-Refuses vs c (raised e, w) bad h = (tt, refl)
  deliver_wire-Refuses vs c (ok wire, w) bad h = absurd (ground (arith, bad, h.0))

  -- If one of the events of a batch is not a mapping, has a name that is missing, blank or reserved, or
  -- has no identifier, `track_batch` raises, and the client is as it was: no event of the batch has
  -- been sent or put into the buffer.
  pub track_batch-Refuses :
      (vs : Items) (c : Client) (w : W)
      → all_trackable (items_of vs) ≡ false
      → Refuses c (track_batch out (list vs) c w)
  unfolding track_batch
  track_batch-Refuses nil c w bad = absurd (ground arith)
  track_batch-Refuses (cons v vs) c w bad =
      deliver_wire-Refuses (v ∷ items_of vs) c (build_all out 0 (v ∷ items_of vs) w) bad
        (build_all-Mirrors 0 (v ∷ items_of vs) w)
