-- ===== src/Client/Usable/Writes.antt =====
-- Every write of a usable client returns or raises, and leaves it usable.
use intempt_python.Prelude.{
  String, ◌||◌, not, Option, none, some, List, [], ◌∷◌, ◌≡◌, ◌∙◌, refl, if-cases,
}
use intempt_python.Config.Batch.{int_of}
use intempt_python.Python.Float.{ℤ}
use intempt_python.Python.Result.{Result, ok, raised}
use intempt_python.Python.Value.{Value, list, nil, cons, Options, get}
use intempt_python.Client.Session.{Outside, Session, Client, is_opted_in, send}
use intempt_python.Client.Events.{
  build_event, build_all, submit_built, submit_named, deliver_wire, has_buffer, track, identify,
  group, track_batch, millis_of, then_send, send_groups, then_settle, send_all, at_most_one,
  run_groups, send_chunked, chunk_by, in_session,
}
use intempt_python.Client.Commerce.{
  track_checked, track_lines, stamped_lines, product_viewed, added_to_cart, ordered,
}
use intempt_python.Client.Consent.{
  ConsentAction, check_consent, check_source, post_consent, record_sourced, record_checked,
  record_consent,
}
use intempt_python.Client.Writes.{
  Write, track_call, track_batch_call, identify_call, group_call, product_viewed_call,
  added_to_cart_call, ordered_call, consent_call, with_session, write,
}
use intempt_python.Client.Usable.{IsUsable, Usable, send_live, posted_live, submit-Usable}

module _ {W : Type 0} (out : Outside W) where
  -- A call on the session alone that leaves it as open as it was.
  abbrev Stays : {A : Type 0} → Session → A × Session × W → Type 0
  Stays s r = r.1.closed ≡ s.closed

  then_send-Stays :
      (next : Session → W → Result (Unit {0}) × Session × W) (s : Session)
      (r : Result (Unit {0}) × Session × W)
      → ((s' : Session) (w : W) → Stays s' (next s' w))
      → Stays s r
      → Stays s (then_send out next r)
  then_send-Stays next s (raised e, s', w) k h = h
  then_send-Stays next s (ok u, s', w) k h = k s' w ∙ h

  send_groups-Stays :
      (groups : List (List Value)) (s : Session) (w : W) → Stays s (send_groups out groups s w)
  unfolding send_groups
  send_groups-Stays [] s w = refl
  send_groups-Stays (g ∷ groups) s w =
      then_send-Stays (send_groups out groups) s (send out g s w) (send_groups-Stays groups)
        (send_live out g s w)

  then_settle-Stays :
      (next : Session → W → Result (Unit {0}) × Session × W) (s : Session)
      (r : Result (Unit {0}) × Session × W)
      → ((s' : Session) (w : W) → Stays s' (next s' w))
      → Stays s r
      → Stays s (then_settle out next r)
  then_settle-Stays next s (raised e, s', w) k h = k s' w ∙ h
  then_settle-Stays next s (ok u, s', w) k h = k s' w ∙ h

  send_all-Stays :
      (groups : List (List Value)) (s : Session) (w : W) → Stays s (send_all out groups s w)
  unfolding send_all
  send_all-Stays [] s w = refl
  send_all-Stays (g ∷ groups) s w =
      then_settle-Stays (send_all out groups) s (send out g s w) (send_all-Stays groups)
        (send_live out g s w)

  run_groups-Stays :
      (limit : Option ℤ) (groups : List (List Value)) (s : Session) (w : W)
      → Stays s (run_groups out limit groups s w)
  run_groups-Stays none groups s w = refl
  run_groups-Stays (some limit) groups s w =
      if-cases {A = Result (Unit {0}) × Session × W} (Stays s) (at_most_one out limit) _ _
        (λ _. send_groups-Stays groups s w) (λ _. send_all-Stays groups s w)

  send_chunked-Stays :
      (m : Result (List (List Value))) (s : Session) (w : W) → Stays s (send_chunked out m s w)
  send_chunked-Stays (raised e) s w = refl
  send_chunked-Stays (ok groups) s w =
      run_groups-Stays (int_of s.config.max_concurrent_requests) groups s w

  post_consent-Stays :
      (action : ConsentAction) (options : Options) (s : Session) (m : Result ℤ × W)
      → Stays s (post_consent out action options s m)
  post_consent-Stays action options s (raised e, w) = refl
  post_consent-Stays action options s (ok millis, w) = posted_live out s _

  record_sourced-Stays :
      (m : Result (Unit {0})) (action : ConsentAction) (options : Options) (s : Session) (w : W)
      → Stays s (record_sourced out m action options s w)
  record_sourced-Stays (raised e) action options s w = refl
  record_sourced-Stays (ok u) action options s w =
      post_consent-Stays action options s (millis_of out (get "timestamp" options) w)

  record_checked-Stays :
      (m : Result (Unit {0})) (action : ConsentAction) (options : Options) (s : Session) (w : W)
      → Stays s (record_checked out m action options s w)
  record_checked-Stays (raised e) action options s w = refl
  record_checked-Stays (ok u) action options s w =
      if-cases {A = Result (Unit {0}) × Session × W} (Stays s) (is_opted_in s) _ _
        (λ _. record_sourced-Stays (check_source options s.config.source_id) action options s w)
        (λ _. refl)

  in_session-Usable :
      (c : Client) (r : Result (Unit {0}) × Session × W)
      → IsUsable c
      → Stays c.session r
      → Usable out (in_session out c r)
  in_session-Usable c (r, s, w) h k = record { live = k ∙ h.live; valid = h.valid }

  module _ (c : Client) (h : IsUsable c) where
    built-Usable : (r : Result Value × W) → Usable out (submit_built out c r)
    built-Usable (raised e, w) = h
    built-Usable (ok event, w) = submit-Usable out (event ∷ []) c w h

    named-Usable :
        (m : Result String) (options : Options) (w : W)
        → Usable out (submit_named out m options c w)
    named-Usable (raised e) options w = h
    named-Usable (ok name) options w = built-Usable (build_event out name options w)

    lines-Usable :
        (name : String) (ids : Options) (m : Result (List Options)) (w : W)
        → Usable out (track_checked out name ids m c w)
    unfolding track_lines
    lines-Usable name ids (raised e) w = h
    lines-Usable name ids (ok lines) w =
        let (event_id, w') = out.uuid w in
        built-Usable
          (stamped_lines out name ids lines event_id (millis_of out (get "timestamp" ids) w'))

    wire-Usable : (r : Result (List Value) × W) → Usable out (deliver_wire out c r)
    unfolding deliver_wire
    wire-Usable (raised e, w) = h
    wire-Usable (ok wire, w) =
        if-cases (Usable out) (has_buffer out c.buffer || not (is_opted_in c.session)) _ _
          (λ _. submit-Usable out wire c w h)
          (λ _.
            let groups = chunk_by out (int_of c.session.config.max_request_events) wire in
            in_session-Usable c (send_chunked out groups c.session w) h
              (send_chunked-Stays groups c.session w))

    batch-Usable : (events : Value) (w : W) → Usable out (track_batch out events c w)
    unfolding track_batch
    batch-Usable (list nil) w = h
    batch-Usable (list (cons v vs)) w = wire-Usable (build_all out 0 _ w)
    batch-Usable _ w = h

    consent-Usable :
        (r : Result (Unit {0}) × Session × W)
        → Stays c.session r
        → Usable out (with_session out c r)
    consent-Usable (r, s, w) k = record { live = k ∙ h.live; valid = h.valid }

    -- From an open client with a valid buffer, or with none, every write returns or raises, whatever
    -- the network does, and leaves the client open and its buffer valid.
    pub write-Usable : (call : Write) (w : W) → Usable out (write out call c w)
    unfolding write track identify group product_viewed added_to_cart ordered record_consent
    write-Usable (track_call event options) w = named-Usable _ options w
    write-Usable (track_batch_call events) w = batch-Usable events w
    write-Usable (identify_call options) w = named-Usable _ _ w
    write-Usable (group_call account_id options) w = named-Usable _ _ w
    write-Usable (product_viewed_call product_id ids) w = lines-Usable _ ids _ w
    write-Usable (added_to_cart_call product_id quantity ids) w = lines-Usable _ ids _ w
    write-Usable (ordered_call products ids) w = lines-Usable _ ids _ w
    write-Usable (consent_call action options) w =
        let m = check_consent action options c.session in
        consent-Usable (record_checked out m action options c.session w)
          (record_checked-Stays m action options c.session w)
