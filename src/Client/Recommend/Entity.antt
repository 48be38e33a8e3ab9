-- ===== src/Client/Recommend/Entity.antt =====
-- The entity that a recommendation asks for.
use intempt_python.Prelude.{String, true, false, ◌||◌, not, ◌∷◌, ◌≡◌, ◌⊎◌, inl, inr, refl, arith}
use intempt_python.Python.Result.{Ensures, bind-Ensures, bind-Ensured, raise_if-Ensures}
use intempt_python.Python.Value.{Value, str, dict, Options, get, is_null, present, fields_of}
use intempt_python.Client.Session.{Session, assert_open, fields}
use intempt_python.Client.Commerce.{is_quantity}
use intempt_python.Client.Recommend.{Recommendation, check_fields, entity, check_recommend}
use intempt_python.Util.{compact, non_blank}

-- The body asks for the one of two identifiers that is given, under its type.
abbrev pub AsksFor : String → Value → Value → Value → Type 0
AsksFor type given other (dict fs) =
    (present given ≡ true)
    × ((present other ≡ false)
        × ((get "id" (fields_of fs) ≡ given) × (get "type" (fields_of fs) ≡ str type)))
AsksFor type given other v = ⊥

abbrev pub NamesOne : Recommendation → Value → Type 0
NamesOne r body =
    AsksFor "user" r.user_id r.account_id body ⊎ AsksFor "account" r.account_id r.user_id body

abbrev Single : Value → Value → Value × String → Type 0
Single user_id account_id who =
    ((present user_id ≡ true) × ((present account_id ≡ false) × (who ≡ (user_id, "user"))))
    ⊎ ((present account_id ≡ true) × ((present user_id ≡ false) × (who ≡ (account_id, "account"))))

entity-Single :
    (user_id account_id : Value) → Ensures (Single user_id account_id) (entity user_id account_id)
unfolding entity
entity-Single user_id account_id = ground arith

body_lem :
    (type : String) (given other : Value) (rest : Options)
    → present given ≡ true
    → present other ≡ false
    → AsksFor type given other (dict (fields (compact (("id", given) ∷ ("type", str type) ∷ rest))))
unfolding compact get present
body_lem type (str s) other rest here away = (here, (away, (refl, refl)))
body_lem type _ other rest here away = absurd (ground arith)

named_lem :
    (r : Recommendation) (who : Value × String) (rest : Options)
    → Single r.user_id r.account_id who
    → NamesOne r (dict (fields (compact (("id", who.0) ∷ ("type", str who.1) ∷ rest))))
named_lem r who rest (inl (here, (away, e))) =
    rw e (inl (body_lem "user" r.user_id r.account_id rest here away))
named_lem r who rest (inr (here, (away, e))) =
    rw e (inr (body_lem "account" r.account_id r.user_id rest here away))

-- A recommendation whose arguments pass the checks asks for exactly one entity: the user, with the id
-- that was given and no account given, or the account, with no user given.
pub check_recommend-NamesOne :
    (r : Recommendation) (s : Session)
    → Ensures (λ request. NamesOne r request.1) (check_recommend r s)
unfolding check_recommend
check_recommend-NamesOne r s =
    let Q = λ (request : String × Value). NamesOne r request.1 in
    bind-Ensures Q (assert_open s) _ λ u live.
      bind-Ensures Q (non_blank r.feed_id "recommend" "feed_id") _ λ feed feed_ok.
        bind-Ensures Q (check_fields r.fields) _ λ wanted fields_ok.
          raise_if-Ensures Q (not (is_null r.limit || is_quantity r.limit)) _ _ λ fine.
            bind-Ensured (Single r.user_id r.account_id) Q (entity r.user_id r.account_id) _
              (entity-Single r.user_id r.account_id) λ who single. named_lem r who _ single
