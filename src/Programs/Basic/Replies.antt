-- ===== src/Programs/Basic/Replies.antt =====
-- What the handlers of examples/basic/app.py reply.
use text.Mathlib.Text.{◌==◌}
use intempt_python.Prelude.{
  ℕ, zero, suc, String, ◌||◌, Option, none, some, List, [], ◌∷◌, Bool, if-cases, Returns, true,
  false, ◌≡◌, refl, arith,
}
use intempt_python.Errors.{Error, config_error, api_error, other_error}
use intempt_python.Python.Result.{Result, ok, raised}
use intempt_python.Python.Float.{ℤ, pos, negsuc}
use intempt_python.Python.Value.{Value}
use intempt_python.Client.Session.{Outside}
use intempt_python.Config.Host.{parse_int}
use intempt_python.Client.Usable.{IsUsable}
use intempt_python.Client.Usable.Reads.{recommend_live}
use intempt_python.Client.Recommend.{recommend}
use intempt_python.Programs.Process.{Process, read, call_all}
use intempt_python.Programs.Keeps.{StaysUsable, call_all-Keeps, read-Keeps}
use intempt_python.Programs.Basic.{
  Line, Form, Library, Incoming, post_request, get_request, Reply, lookup, non_empty, text_or, Plan,
  refuse, fail, perform, purchase_of, purchase_plan, plan_of, Request,
}
use intempt_python.Programs.Basic.Handlers.{
  form_of, body_of_length, body, caught, answered, carry_out, post_for, post_form, do_post,
  degraded, feed_request, get_for, get_feed, do_get, handle,
}

abbrev pub is_write : String → Bool
is_write route = route == "/signup" || (route == "/purchase" || route == "/forget")

-- The replies to a POST, by its route: 201 for a write of /signup and /purchase and 202 for one of
-- /forget, 502 for one that the service refused, 400 for what the visitor got wrong, and 404 for any
-- other route.
pub data IsPostStatus (route : String) : ℕ → Type 0 where
  created : (route == "/signup" || route == "/purchase") ≡ true → IsPostStatus route 201
  accepted : (route == "/forget") ≡ true → IsPostStatus route 202
  bad_form : IsPostStatus route 400
  no_route : is_write route ≡ false → IsPostStatus route 404
  bad_gateway : is_write route ≡ true → IsPostStatus route 502

-- The replies to a GET: 200 for a feed, or for none when the service fails, 400 for a query without a
-- user, 404 for another route, 503 for a feed that is not configured.
pub data IsGetStatus (route : String) (feed_id : Option String) : ℕ → Type 0 where
  fetched : (route == "/recommend") ≡ true → IsGetStatus route feed_id 200
  bad_query : (route == "/recommend") ≡ true → IsGetStatus route feed_id 400
  no_page : (route == "/recommend") ≡ false → IsGetStatus route feed_id 404
  unavailable :
      (route == "/recommend") ≡ true → non_empty feed_id ≡ none → IsGetStatus route feed_id 503

-- How `do_POST` ends: in such a reply, or in an exception that the SDK does not define.
abbrev pub EndsPost : String → Result Reply → Type 0
EndsPost route (ok reply) = IsPostStatus route reply.status
EndsPost route (raised (other_error name)) = Unit
EndsPost route (raised e) = ⊥

-- How `do_GET` ends: in such a reply, or, on its route, in an exception that is no `IntemptApiError`.
abbrev pub EndsGet : String → Option String → Result Reply → Type 0
EndsGet route feed_id (ok reply) = IsGetStatus route feed_id reply.status
EndsGet route feed_id (raised (api_error e)) = ⊥
EndsGet route feed_id (raised e) = (route == "/recommend") ≡ true

module _ (lib : Library) (feed_id : Option String) where
  abbrev pub Answers : Incoming → Result Reply → Type 0
  Answers (post_request request) r = EndsPost (lib.route request.path) r
  Answers (get_request request) r = EndsGet (lib.route request.path) feed_id r

  -- Every request has been answered, in order.
  abbrev pub AllAnswered : List Incoming → List (Result Reply) → Type 0
  AllAnswered [] [] = Unit
  AllAnswered (request ∷ requests) (r ∷ rs) = Answers request r × AllAnswered requests rs
  AllAnswered requests rs = ⊥

-- A plan whose own replies are of these, and which writes only on the routes for it.
abbrev Fits : String → Plan → Type 0
Fits route (refuse reply) = IsPostStatus route reply.status
Fits route (fail e) = is_write route ≡ true
Fits route (perform status ws) = IsPostStatus route status × (is_write route ≡ true)

purchase-Fits :
    (route user : String) (form : Form) (o : Option String)
    → (route == "/purchase") ≡ true
    → is_write route ≡ true
    → Fits route (purchase_plan user form o)
purchase-Fits route user form none h k = bad_form
purchase-Fits route user form (some sku) h k =
    quantity-Fits (parse_int (text_or "1" (lookup "qty" form)))
  where
    quantity-Fits : (n : Option ℤ) → Fits route (purchase_of user sku n)
    quantity-Fits none = k
    quantity-Fits (some n) = (created (ground arith), k)

plan_of-Fits : (route : String) (form : Form) (user : String) → Fits route (plan_of route form user)
unfolding plan_of
plan_of-Fits route form user =
    if-cases (Fits route) (route == "/signup") _ _ (λ h. (created (ground arith), ground arith))
      (λ h.
        if-cases (Fits route) (route == "/purchase") _ _
          (λ k. purchase-Fits route user form (non_empty (lookup "sku" form)) k (ground arith))
          (λ k.
            if-cases (Fits route) (route == "/forget") _ _ (λ l. (accepted l, ground arith))
              (λ l. no_route (ground arith))))

module _ {W : Type 0} where
  -- A handler has ended, in such a reply or in an exception, and the client is usable.
  abbrev EndsIn : (Result Reply → Type 0) → Option (Result Reply × Process Line W) → Type 0
  EndsIn P = Returns (λ (r, p). P r × IsUsable p.client)

  abbrev Ends : String → Option (Result Reply × Process Line W) → Type 0
  Ends route = EndsIn (EndsPost route)

  abbrev Gets : String → Option String → Option (Result Reply × Process Line W) → Type 0
  Gets route feed_id = EndsIn (EndsGet route feed_id)

module _ (lib : Library) {W : Type 0} (out : Outside W) where
  caught-Ends :
      (route : String) (e : Error) (p : Process Line W)
      → is_write route ≡ true
      → IsUsable p.client
      → Ends route (caught lib e p)
  unfolding caught
  caught-Ends route (api_error e) p h u = (bad_gateway h, u)
  caught-Ends route (config_error message) p h u = (bad_form, u)
  caught-Ends route (other_error name) p h u =
      if-cases (Ends route) (name == "ValueError" || lib.is_value_error name) _ _
        (λ _. (bad_form, u)) (λ _. (tt, u))

  answered-Ends :
      (route : String) (status : ℕ) (o : Option (Result (Unit {0}) × Process Line W))
      → IsPostStatus route status
      → is_write route ≡ true
      → StaysUsable o
      → Ends route (answered lib status o)
  answered-Ends route status none h k u = absurd u
  answered-Ends route status (some (ok v, p)) h k u = (h, u)
  answered-Ends route status (some (raised e, p)) h k u = caught-Ends route e p k u

  carry_out-Ends :
      (route : String) (plan : Plan) (p : Process Line W)
      → Fits route plan
      → IsUsable p.client
      → Ends route (carry_out lib out plan p)
  unfolding carry_out
  carry_out-Ends route (refuse reply) p h u = (h, u)
  carry_out-Ends route (fail e) p h u = caught-Ends route e p h u
  carry_out-Ends route (perform status ws) p h u =
      answered-Ends route status (call_all out ws p) h.0 h.1 (call_all-Keeps out ws p u)

  post_for-Ends :
      (route : String) (form : Form) (o : Option String) (p : Process Line W)
      → IsUsable p.client
      → Ends route (post_for lib out route form o p)
  post_for-Ends route form none p u = (bad_form, u)
  post_for-Ends route form (some user) p u =
      carry_out-Ends route (plan_of route form user) p (plan_of-Fits route form user) u

  abbrev RaisesOther : Result Form → Type 0
  RaisesOther (ok form) = Unit
  RaisesOther (raised (other_error name)) = Unit
  RaisesOther (raised e) = ⊥

  form-RaisesOther : (o : Option String) → RaisesOther (form_of lib o)
  form-RaisesOther none = tt
  form-RaisesOther (some raw) = tt

  length-RaisesOther :
      (request : Request) (n : Option ℤ) → RaisesOther (body_of_length lib request n)
  length-RaisesOther request none = tt
  length-RaisesOther request (some (pos zero)) = tt
  length-RaisesOther request (some (pos (suc n))) = form-RaisesOther (request.decoded (pos (suc n)))
  length-RaisesOther request (some (negsuc n)) = form-RaisesOther (request.decoded (negsuc n))

  body-RaisesOther : (request : Request) → RaisesOther (body lib request)
  unfolding body
  body-RaisesOther request = length-RaisesOther request _

  post_form-Ends :
      (route : String) (m : Result Form) (p : Process Line W)
      → RaisesOther m
      → IsUsable p.client
      → Ends route (post_form lib out route m p)
  post_form-Ends route (raised (api_error e)) p h u = absurd h
  post_form-Ends route (raised (config_error e)) p h u = absurd h
  post_form-Ends route (raised (other_error name)) p h u = (tt, u)
  post_form-Ends route (ok form) p h u =
      post_for-Ends route form (non_empty (lookup "user" form)) p u

  module _ (route : String) (feed_id : Option String) (shown : (route == "/recommend") ≡ true) where
    degraded-Gets :
        (o : Option (Result Value × Process Line W))
        → StaysUsable o
        → Gets route feed_id (degraded lib out o)
    degraded-Gets none u = absurd u
    degraded-Gets (some (ok feed, p)) u = (fetched shown, u)
    degraded-Gets (some (raised (api_error e), p)) u = (fetched shown, u)
    degraded-Gets (some (raised (config_error m), p)) u = (shown, u)
    degraded-Gets (some (raised (other_error name), p)) u = (shown, u)

    get_for-Gets :
        (feed : String) (o : Option String) (p : Process Line W)
        → IsUsable p.client
        → Gets route feed_id (get_for lib out feed o p)
    get_for-Gets feed none p u = (bad_query shown, u)
    get_for-Gets feed (some user) p u =
        let r = feed_request lib out feed user in
        degraded-Gets (read (recommend out r) p)
          (read-Keeps (recommend out r) (recommend_live out r) p u)

    get_feed-Gets :
        (o : Option String) (query : String) (p : Process Line W)
        → non_empty feed_id ≡ o
        → IsUsable p.client
        → Gets route feed_id (get_feed lib out o query p)
    get_feed-Gets none query p e u = (unavailable shown e, u)
    get_feed-Gets (some feed) query p e u = get_for-Gets feed _ p u

  pub handle-Answers :
      (feed_id : Option String) (request : Incoming) (p : Process Line W)
      → IsUsable p.client
      → Returns
          (λ (r, p'). Answers lib feed_id request r × IsUsable p'.client)
          (handle lib out feed_id request p)
  unfolding do_post do_get
  handle-Answers feed_id (post_request request) p u =
      post_form-Ends (lib.route request.path) (body lib request) p (body-RaisesOther request) u
  handle-Answers feed_id (get_request request) p u =
      let route = lib.route request.path in
      if-cases (Gets route feed_id) (route == "/recommend") _ _
        (λ shown.
          get_feed-Gets route feed_id shown (non_empty feed_id) (lib.query request.path) p refl u)
        (λ other. (no_page other, u))
