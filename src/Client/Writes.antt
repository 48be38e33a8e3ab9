-- ===== src/Client/Writes.antt =====
-- The outbound writes of a client, which `opt_out` suppresses.
use intempt_python.Prelude.{
  String, false, ◌||◌, not, is_empty, if-cases, Option, some, List, [], ◌∷◌, ◌≡◌, refl, arith,
  Returns,
}
use intempt_python.Python.Result.{Result, ok, raised}
use intempt_python.Python.Value.{Value, list, nil, cons, Options, get}
use intempt_python.Client.Session.{
  Outside, Session, Client, is_opted_in, assert_open, submit_open, submit_checked, submit,
}
use intempt_python.Client.Events.{
  build_event, build_all, submit_built, submit_named, deliver_wire, has_buffer, track, identify,
  group, track_batch, millis_of,
}
use intempt_python.Client.Commerce.{
  track_checked, track_lines, stamped_lines, product_viewed, added_to_cart, ordered,
}
use intempt_python.Client.Consent.{ConsentAction, check_consent, record_checked, record_consent}

-- A call that writes: events, commerce and consent.
pub data Write : Type 0 where
  track_call : Value → Options → Write
  track_batch_call : Value → Write
  identify_call : Options → Write
  group_call : Value → Options → Write
  product_viewed_call : Value → Options → Write
  added_to_cart_call : Value → Value → Options → Write
  ordered_call : Value → Options → Write
  consent_call : ConsentAction → Options → Write

module _ {W : Type 0} (out : Outside W) where
  abbrev pub with_session :
      Client → Result (Unit {0}) × Session × W → Option (Result (Unit {0}) × (Client × W))
  with_session c (r, s, w) = some (r, (record c { session = s }, w))

  unfoldable pub write : Write → Client → W → Option (Result (Unit {0}) × (Client × W))
  write (track_call event options) c w = track out event options c w
  write (track_batch_call events) c w = track_batch out events c w
  write (identify_call options) c w = identify out options c w
  write (group_call account_id options) c w = group out account_id options c w
  write (product_viewed_call product_id ids) c w = product_viewed out product_id ids c w
  write (added_to_cart_call product_id quantity ids) c w =
      added_to_cart out product_id quantity ids c w
  write (ordered_call products ids) c w = ordered out products ids c w
  write (consent_call action options) c w =
      with_session c (record_consent out action options c.session w)

  -- The call returned or raised, and the client is as it was.
  abbrev pub Silent : Client → Option (Result (Unit {0}) × (Client × W)) → Type 0
  Silent c = Returns (λ (r, (c', w')). c' ≡ c)

  module _ (c : Client) (muted : is_opted_in c.session ≡ false) where
    submit_checked-Silent :
        (m : Result (Unit {0})) (events : List Value) (w : W)
        → Silent c (submit_checked out m events c w)
    unfolding submit_open
    submit_checked-Silent (raised e) events w = refl
    submit_checked-Silent (ok u) events w =
        if-cases (Silent c) (not (is_opted_in c.session) || is_empty events) _ _ (λ h. refl)
          (λ h. absurd (ground arith))

    submit-Silent : (events : List Value) (w : W) → Silent c (submit out events c w)
    unfolding submit
    submit-Silent events w = submit_checked-Silent (assert_open c.session) events w

    built-Silent : (r : Result Value × W) → Silent c (submit_built out c r)
    built-Silent (raised e, w) = refl
    built-Silent (ok event, w) = submit-Silent (event ∷ []) w

    named-Silent :
        (m : Result String) (options : Options) (w : W) → Silent c (submit_named out m options c w)
    named-Silent (raised e) options w = refl
    named-Silent (ok name) options w = built-Silent (build_event out name options w)

    lines-Silent :
        (name : String) (ids : Options) (m : Result (List Options)) (w : W)
        → Silent c (track_checked out name ids m c w)
    unfolding track_lines
    lines-Silent name ids (raised e) w = refl
    lines-Silent name ids (ok lines) w =
        let (event_id, w') = out.uuid w in
        built-Silent
          (stamped_lines out name ids lines event_id (millis_of out (get "timestamp" ids) w'))

    wire-Silent : (r : Result (List Value) × W) → Silent c (deliver_wire out c r)
    unfolding deliver_wire
    wire-Silent (raised e, w) = refl
    wire-Silent (ok wire, w) =
        if-cases (Silent c) (has_buffer out c.buffer || not (is_opted_in c.session)) _ _
          (λ h. submit-Silent wire w) (λ h. absurd (ground arith))

    batch-Silent : (events : Value) (w : W) → Silent c (track_batch out events c w)
    unfolding track_batch
    batch-Silent (list nil) w = refl
    batch-Silent (list (cons v vs)) w = wire-Silent (build_all out 0 _ w)
    batch-Silent _ w = refl

    consent-Silent :
        (m : Result (Unit {0})) (action : ConsentAction) (options : Options) (w : W)
        → Silent c (with_session c (record_checked out m action options c.session w))
    consent-Silent (raised e) action options w = refl
    consent-Silent (ok u) action options w =
        if-cases {A = Result (Unit {0}) × Session × W} (λ r. (record c { session = r.1 }) ≡ c)
          (is_opted_in c.session) _ _ (λ h. absurd (ground arith)) (λ h. refl)

    -- Every write of a client that has opted out, or is closed, returns or raises at once and leaves the
    -- client as it was: it makes no request, and puts nothing into the buffer.
    pub write-Silent : (call : Write) (w : W) → Silent c (write call c w)
    unfolding write track identify group product_viewed added_to_cart ordered record_consent
    write-Silent (track_call event options) w = named-Silent _ options w
    write-Silent (track_batch_call events) w = batch-Silent events w
    write-Silent (identify_call options) w = named-Silent _ _ w
    write-Silent (group_call account_id options) w = named-Silent _ _ w
    write-Silent (product_viewed_call product_id ids) w = lines-Silent _ ids _ w
    write-Silent (added_to_cart_call product_id quantity ids) w = lines-Silent _ ids _ w
    write-Silent (ordered_call products ids) w = lines-Silent _ ids _ w
    write-Silent (consent_call action options) w =
        consent-Silent (check_consent action options c.session) action options w
