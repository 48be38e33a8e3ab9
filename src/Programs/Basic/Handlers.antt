-- ===== src/Programs/Basic/Handlers.antt =====
-- examples/basic/app.py: the handlers, and the server from its start to the close of its client.
use text.Mathlib.Text.{◌==◌}
use intempt_python.Prelude.{ℕ, zero, String, ◌||◌, Option, none, some, List, [], ◌∷◌, if◌then◌else◌}
use intempt_python.Config.Host.{parse_int}
use intempt_python.Errors.{Error, config_error, api_error, other_error}
use intempt_python.Python.Float.{ℤ, pos}
use intempt_python.Python.Result.{Result, ok, raised}
use intempt_python.Python.Value.{Value, null, int, str, list, truthy}
use intempt_python.Client.Session.{Outside, Client, items, close_client}
use intempt_python.Client.Recommend.{Recommendation, recommend}
use intempt_python.Programs.Process.{Process, Action, return, call_all, read}
use intempt_python.Programs.Basic.{
  Incoming, Library, Line, Plan, Reply, Request, Form, first_values, lookup, no_items, non_empty,
  ok_payload, plan_of, refusal, refuse, fail, perform, write_rejected, lookup_failed, post_request,
  get_request, text_or,
}

module _ (lib : Library) where
  -- `_body`
  abbrev pub form_of : Option String → Result Form
  form_of none = raised (other_error "UnicodeDecodeError")
  form_of (some raw) = ok (first_values (lib.parse_qs raw))

  abbrev pub body_of_length : Request → Option ℤ → Result Form
  body_of_length request none = raised (other_error "ValueError")
  body_of_length request (some (pos zero)) = form_of (some "")
  body_of_length request (some n) = form_of (request.decoded n)

  unfoldable pub body : Request → Result Form
  body request = body_of_length request (parse_int (text_or "0" request.content_length))

  -- The `except` clauses of `do_POST`; an `IntemptConfigError` is a `ValueError`.
  unfoldable pub caught :
      {W : Type 0} → Error → Process Line W → Option (Result Reply × Process Line W)
  caught (api_error e) p = some (
    ok (refusal 502 "analytics write failed"),
    record p { printed = write_rejected e.message ∷ p.printed },
  )
  caught (config_error message) p = some (ok (refusal 400 message), p)
  caught (other_error name) p =
      if name == "ValueError" || lib.is_value_error name
      then some (ok (refusal 400 (lib.text_of name)), p)
      else some (raised (other_error name), p)

  abbrev pub answered :
      {W : Type 0}
      → ℕ
      → Option (Result (Unit {0}) × Process Line W)
      → Option (Result Reply × Process Line W)
  answered status none = none
  answered status (some (ok u, p)) = some (ok (record { status = status; payload = ok_payload }), p)
  answered status (some (raised e, p)) = caught e p

  module _ {W : Type 0} (out : Outside W) where
    unfoldable pub carry_out : Plan → Action Line W Reply
    carry_out (refuse reply) p = return reply p
    carry_out (fail e) p = caught e p
    carry_out (perform status ws) p = answered status (call_all out ws p)

    abbrev pub post_for : String → Form → Option String → Action Line W Reply
    post_for route form none = return (refusal 400 "user is required")
    post_for route form (some user) = carry_out (plan_of route form user)

    abbrev pub post_form : String → Result Form → Action Line W Reply
    post_form route (raised e) p = some (raised e, p)
    post_form route (ok form) p = post_for route form (non_empty (lookup "user" form)) p

    unfoldable pub do_post : Request → Action Line W Reply
    do_post request = post_form (lib.route request.path) (body request)

    -- What follows the call of `recommend`: of the exceptions only an `IntemptApiError` is caught.
    abbrev pub degraded :
        Option (Result Value × Process Line W) → Option (Result Reply × Process Line W)
    degraded none = none
    degraded (some (ok feed, p)) =
        some (ok (record { status = 200; payload = (if truthy feed then feed else no_items) }), p)
    degraded (some (raised (api_error e), p)) = some (
      ok (record { status = 200; payload = no_items }),
      record p { printed = lookup_failed e.message ∷ p.printed },
    )
    degraded (some (raised e, p)) = some (raised e, p)

    abbrev pub feed_request : String → String → Recommendation
    feed_request feed user = record {
      feed_id = str feed;
      fields = list (items (str "id" ∷ str "title" ∷ []));
      user_id = str user;
      account_id = null;
      limit = int (pos 5);
      product_id = null;
    }

    abbrev pub get_for : String → Option String → Action Line W Reply
    get_for feed none p = return (refusal 400 "user is required") p
    get_for feed (some user) p = degraded (read (recommend out (feed_request feed user)) p)

    abbrev pub get_feed : Option String → String → Action Line W Reply
    get_feed none query p = return (refusal 503 "set INTEMPT_FEED_ID to enable this route") p
    get_feed (some feed) query p =
        get_for feed (non_empty (lookup "user" (first_values (lib.parse_qs query)))) p

    -- `do_GET`, where `feed_id` is `FEED_ID`.
    unfoldable pub do_get : Option String → Request → Action Line W Reply
    do_get feed_id request p =
        if lib.route request.path == "/recommend"
        then get_feed (non_empty feed_id) (lib.query request.path) p
        else return (refusal 404 "no such route") p

    -- Requests, one after the other. An exception that leaves a handler ends that request alone.
    abbrev pub handle : Option String → Incoming → Action Line W Reply
    handle feed_id (post_request request) = do_post request
    handle feed_id (get_request request) = do_get feed_id request

    abbrev pub and_reply :
        Result Reply
        → Option (List (Result Reply) × Process Line W)
        → Option (List (Result Reply) × Process Line W)
    and_reply r none = none
    and_reply r (some (rs, p)) = some (r ∷ rs, p)

    abbrev pub then_serve :
        (Process Line W → Option (List (Result Reply) × Process Line W))
        → Option (Result Reply × Process Line W)
        → Option (List (Result Reply) × Process Line W)
    then_serve next none = none
    then_serve next (some (r, p)) = and_reply r (next p)

    unfoldable pub serve :
        Option String
        → List Incoming
        → Process Line W
        → Option (List (Result Reply) × Process Line W)
    serve feed_id [] p = some ([], p)
    serve feed_id (request ∷ requests) p =
        then_serve (serve feed_id requests) (handle feed_id request p)

    -- The `finally` of `main`.
    abbrev pub with_closed :
        List (Result Reply) → Option (Client × W) → Option (List (Result Reply) × (Client × W))
    with_closed rs none = none
    with_closed rs (some r) = some (rs, r)

    abbrev pub finally_close :
        Option (List (Result Reply) × Process Line W) → Option (List (Result Reply) × (Client × W))
    finally_close none = none
    finally_close (some (rs, p)) = with_closed rs (close_client out p.client p.world)

    -- `serve_forever`, until the server is shut down, and what follows it.
    unfoldable pub run_server :
        Option String → List Incoming → Process Line W → Option (List (Result Reply) × (Client × W))
    run_server feed_id requests p = finally_close (serve feed_id requests p)
