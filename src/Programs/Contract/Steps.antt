-- ===== src/Programs/Contract/Steps.antt =====
-- scripts/e2e.py: the steps.
use Prim.Native.String.{◌++◌}
use intempt_python.Prelude.{ℕ, String, Option, none, some, List, [], ◌∷◌, if◌then◌else◌}
use intempt_python.Prelude.{◌++◌ as append}
use intempt_python.Errors.{Error, api_error, other_error}
use intempt_python.Python.Float.{pos}
use intempt_python.Python.Result.{Result, ok, raised}
use intempt_python.Python.Text.{is_nil}
use intempt_python.Python.Value.{Value, null, int, str, list, dict, field, end, truthy}
use intempt_python.Client.Session.{Outside, Client, items, close_client, flush_client}
use intempt_python.Client.Consent.{accept, reject}
use intempt_python.Client.Recommend.{Recommendation, recommend}
use intempt_python.Client.Writes.{
  Write, track_call, track_batch_call, identify_call, group_call, product_viewed_call,
  added_to_cart_call, ordered_call, consent_call,
}
use intempt_python.Programs.Process.{
  Environ, Process, Action, call, call_all, read, open_client, ◌>>=◌, ◌>>◌,
}
use intempt_python.Programs.Contract.Harness.{Step, step, skip}
use intempt_python.Programs.Contract.Inputs.{
  feed_fields, setting, batched_options, texts, with_user, or_default,
}

-- `len(items or [])`, which raises for what has no length.
unfoldable pub check_length : Value → Result (Unit {0})
check_length (list vs) = ok tt
check_length (dict fs) = ok tt
check_length (str s) = ok tt
check_length v = if truthy v then raised (other_error "TypeError") else ok tt

module _ {W : Type 0} where
  abbrev pub checked_length : Value → Action Error W (Unit {0})
  checked_length v p = some (check_length v, p)

  -- What `unknown_feed` makes of the call: it wants an `IntemptApiError`.
  abbrev pub rejected_feed :
      Option (Result Value × Process Error W) → Option (Result (Unit {0}) × Process Error W)
  rejected_feed none = none
  rejected_feed (some (ok v, p)) = some (raised (other_error "AssertionError"), p)
  rejected_feed (some (raised (api_error e), p)) = some (ok tt, p)
  rejected_feed (some (raised e, p)) = some (raised e, p)

  -- The `finally` of `buffered`: the second client is closed, and the process has its own again.
  abbrev pub restored :
      Result (Unit {0})
      → Process Error W
      → Option (Client × W)
      → Option (Result (Unit {0}) × Process Error W)
  restored r p none = none
  restored r p (some (c, w)) = some (r, record p { world = w })

  abbrev pub after_flush :
      Process Error W → Option (Client × W) → Option (Result (Unit {0}) × Process Error W)
  after_flush p none = none
  after_flush p (some (c, w)) = some (ok tt, record p { client = c; world = w })

unfoldable pub five_events : String → List Write
five_events user =
    let event : ℕ → Write = λ i.
      track_call (str "sdk_e2e_buffered")
        (with_user user (("properties", dict (field "i" (int (pos i)) end)) ∷ [])) in
    event 0 ∷ event 1 ∷ event 2 ∷ event 3 ∷ event 4 ∷ []

-- The steps before those of `FEED_ID`; `yesterday` is the `datetime` of the third.
unfoldable pub named_writes : Environ → String → Value → List (String × Write)
named_writes env user yesterday =
    let ids = with_user user [] in
    let product = str (or_default "sdk-e2e-product" (setting "INTEMPT_E2E_PRODUCT_ID" env)) in
    let suffix =
      if is_nil (setting "INTEMPT_E2E_PRODUCT_ID" env) then "" else " (catalog product)" in
    let account = str (or_default "sdk-e2e-account" (setting "INTEMPT_E2E_ACCOUNT_ID" env)) in
    (
      "identify (proves Basic auth is accepted)",
      identify_call (with_user user (("traits", dict (field "source" (str "sdk-e2e") end)) ∷ [])),
    )
    ∷ (
      "track",
      track_call (str "sdk_e2e_event")
          (with_user user (("properties", dict (field "runner" (str "python") end)) ∷ [])),
    )
    ∷ (
      "track with an explicit timestamp",
      track_call (str "sdk_e2e_backfill") (with_user user (("timestamp", yesterday) ∷ [])),
    )
    ∷ (
      "track_batch (2 events, 1 request)",
      track_batch_call (
          list (
            items (
              dict (field "event" (str "sdk_e2e_batch_a") (field "user_id" (str user) end))
              ∷ dict (field "event" (str "sdk_e2e_batch_b") (field "user_id" (str user) end))
              ∷ []))),
    )
    ∷ (
      "group (creates the account if absent)",
      group_call account
          (with_user user (("attributes", dict (field "tier" (str "e2e") end)) ∷ [])),
    )
    ∷ (("ecommerce.product_viewed" ++ suffix), product_viewed_call product ids)
    ∷ (("ecommerce.added_to_cart" ++ suffix), added_to_cart_call product (int (pos 2)) ids)
    ∷ (
      ("ecommerce.ordered" ++ (suffix ++ " (1 line)")),
      ordered_call
          (list
            (items (dict (field "product_id" product (field "quantity" (int (pos 1)) end)) ∷ [])))
          ids,
    )
    ∷ (
      "consent.grant (proves epoch-seconds timestamps)",
      consent_call accept (with_user user (("category", str "marketing") ∷ [])),
    )
    ∷ (
      "consent.revoke",
      consent_call reject (with_user user (("reason", str "sdk-e2e teardown") ∷ [])),
    )
    ∷ []

module _ {W : Type 0} (out : Outside W) where
  abbrev pub flush_action : Action Error W (Unit {0})
  flush_action p = after_flush p (flush_client out p.client p.world)

  -- The body of the `try` in `buffered`.
  unfoldable pub fill_and_flush : String → Action Error W (Unit {0})
  fill_and_flush user = call_all out (five_events user) >> flush_action

  abbrev pub then_close :
      Process Error W
      → Option (Result (Unit {0}) × Process Error W)
      → Option (Result (Unit {0}) × Process Error W)
  then_close p none = none
  then_close p (some (r, q)) = restored r p (close_client out q.client q.world)

  abbrev pub with_second :
      String → Result Client → Process Error W → Option (Result (Unit {0}) × Process Error W)
  with_second user (raised e) p = some (raised e, p)
  with_second user (ok c) p = then_close p (fill_and_flush user (record p { client = c }))

  -- `buffered`
  unfoldable pub buffered : String → Result Client → Action Error W (Unit {0})
  buffered user opened p = with_second user opened p

  abbrev pub feed_request : String → String → List String → ℕ → Recommendation
  feed_request user feed names limit = record {
    feed_id = str feed;
    fields = list (items (texts names));
    user_id = str user;
    account_id = null;
    limit = int (pos limit);
    product_id = null;
  }

  unfoldable pub real_feed : String → String → List String → Action Error W (Unit {0})
  real_feed user feed names =
      read (recommend out (feed_request user feed names 3)) >>= checked_length

  unfoldable pub unknown_feed : String → List String → Action Error W (Unit {0})
  unknown_feed user names p =
      rejected_feed (read (recommend out (feed_request user "000000000" names 1)) p)

  abbrev pub call_steps : List (String × Write) → List (Step W)
  call_steps [] = []
  call_steps ((name, w) ∷ rest) = step name (call out w) ∷ call_steps rest

  unfoldable pub feed_steps : Environ → String → List (Step W)
  feed_steps env user =
      let feed = setting "INTEMPT_E2E_FEED_ID" env in
      if is_nil feed
      then skip "recommend" ∷ []
      else step "recommend (real feed resolves)" (real_feed user feed (feed_fields env))
        ∷ step "recommend (unknown feed is rejected)" (unknown_feed user (feed_fields env))
        ∷ []

  unfoldable pub last_step : Environ → Value → String → Step W
  last_step env logger user =
      step "flush (5 events buffered, 1 request)"
        (buffered user (open_client out.show logger (batched_options env)))

  unfoldable pub all_steps : Environ → Value → String → Value → List (Step W)
  all_steps env logger user yesterday =
      append (call_steps (named_writes env user yesterday))
        (append (feed_steps env user) (last_step env logger user ∷ []))
