-- ===== src/Client/Recommend.antt =====
-- intempt/_client.py: `recommend`.
pub mod Entity
use Prim.Native.String.{◌++◌}
use intempt_python.Prelude.{
  ℕ, String, Bool, true, false, ◌&&◌, ◌||◌, not, Option, none, some, List, [], ◌∷◌, ◌≡◌, ◌⊎◌, inl,
  inr, refl, arith, if-cases, if◌then◌else◌,
}
use intempt_python.Config.Record.{project_path}
use intempt_python.Errors.{Error, config_error}
use intempt_python.Python.Float.{ℤ}
use intempt_python.Python.Result.{
  Result, ok, raised, ◌>>=◌, ◌>>◌, raise_if, Ensures, bind-Ensures, raise_if-Ensures, bind-Ensured,
}
use intempt_python.Python.Value.{
  Value, null, str, list, dict, Items, nil, cons, Options, get, is_null, present, fields_of,
}
use intempt_python.Client.Session.{Outside, Session, assert_open, after_post, fields}
use intempt_python.Client.Commerce.{is_quantity}
use intempt_python.Client.Flags.{source_value}
use intempt_python.Transport.Post.{post}
use intempt_python.Util.{compact, non_blank}

-- The arguments of `recommend`.
pub record Recommendation : Type 0 where
  pub feed_id : Value
  pub fields : Value
  pub user_id : Value
  pub account_id : Value
  pub limit : Value
  pub product_id : Value

abbrev pub check_fields : Value → Result Items
check_fields (list (cons v vs)) = ok (cons v vs)
check_fields v = raised (config_error "recommend: fields must be a non-empty sequence")

-- The one entity: its id and its type.
unfoldable pub entity : Value → Value → Result (Value × String)
entity user_id account_id =
    if present user_id && present account_id
    then raised (
        config_error
          "recommend: pass user_id or account_id, not both — the feeds API resolves a single entity")
    else if present user_id
    then ok (user_id, "user")
    else if present account_id
    then ok (account_id, "account")
    else raised (config_error "recommend: one of user_id or account_id is required")

-- The checks of `recommend`, with the path's end and the body.
unfoldable pub check_recommend : Recommendation → Session → Result (String × Value)
check_recommend r s = do
  assert_open s
  feed ← non_blank r.feed_id "recommend" "feed_id"
  wanted ← check_fields r.fields
  raise_if (not (is_null r.limit || is_quantity r.limit))
      (config_error "recommend: limit must be a positive integer")
  who ← entity r.user_id r.account_id
  ok (
    "/feeds/" ++ (feed ++ "/data"),
    dict (
        fields (
          compact (
            ("id", who.0)
            ∷ ("type", str who.1)
            ∷ ("fields", list wanted)
            ∷ ("limit", r.limit)
            ∷ ("productId", r.product_id)
            ∷ ("sourceId", source_value s.config.source_id)
            ∷ []))),
  )

module _ {W : Type 0} (out : Outside W) where
  abbrev pub request_feed : Result (String × Value) → Session → W → Result Value × Session × W
  request_feed (raised e) s w = (raised e, s, w)
  request_feed (ok (suffix, body)) s w =
      after_post out s (post out.net (project_path out.show s.config suffix) body s.transport w)

  unfoldable pub recommend : Recommendation → Session → W → Result Value × Session × W
  recommend r s w = request_feed (check_recommend r s) s w
