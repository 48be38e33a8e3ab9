-- ===== src/Client/Flags/Variation.antt =====
-- What a flag read returns, whatever the service does.
use intempt_python.Prelude.{
  String, true, false, Option, List, [], ◌∷◌, All, ◌≡◌, ◌⊎◌, inl, inr, refl, arith, if-cases,
  if◌then◌else◌,
}
use intempt_python.Python.Result.{Result, ok, raised, Ensures}
use intempt_python.Python.Value.{Value, null, str, dict, list, Fields, get, fields_of, is_null}
use intempt_python.Client.Session.{Outside, Session, items}
use intempt_python.Client.Flags.{
  FlagContext, FlagDetail, check_flag_call, choices_of, choices_or_empty, is_key, served,
  find_choice, choose, choose_or_empty, pick, variation_detail, map_result, variation,
}

-- A choice is a mapping, as the contract of the service says.
abbrev pub IsMapping : Value → Type 0
IsMapping (dict fs) = Unit
IsMapping v = ⊥

-- The first of the choices that is named `key`, with a body that is not null, has this body.
abbrev pub Serves : String → List Value → Value → Type 0
Serves key [] v = ⊥
Serves key (dict fs ∷ choices) v =
    if is_key key (get "name" (fields_of fs))
    then (get "body" (fields_of fs) ≡ v) × (is_null v ≡ false)
    else Serves key choices v
Serves key (choice ∷ choices) v = ⊥

abbrev pub Unserved : String → List Value → Type 0
Unserved key choices = (v : Value) → ¬ Serves key choices v

nonnull : (body v : Value) → body ≡ null → (body ≡ v) × (is_null v ≡ false) → ⊥
nonnull body v e (e', h) = ground arith

pub served_lem :
    (default body : Value)
    → ((body ≡ null) × (served default body ≡ default))
      ⊎ ((is_null body ≡ false) × (body ≡ served default body))
served_lem default null = inl (refl, refl)
served_lem default _ = inr (refl, refl)

-- Of a list of mappings, `find_choice` returns the body that they serve for the key, or the default
-- if they serve none.
abbrev FindsOrDefaults : String → Value → List Value → Result FlagDetail → Type 0
FindsOrDefaults key default choices m =
    (d : FlagDetail) × ((m ≡ ok d)
      × ((Unserved key choices × (d.value ≡ default)) ⊎ Serves key choices d.value))

found_lem :
    (key : String) (default : Value) (fs : Fields) (choices : List Value) (reason : Value)
    → is_key key (get "name" (fields_of fs)) ≡ true
    → FindsOrDefaults key default
        (dict fs ∷ choices)
        (ok (record { value = served default (get "body" (fields_of fs)); reason = reason }))
found_lem key default fs choices reason hit =
    elim (served_lem default (get "body" (fields_of fs))) [
      | inl (nothing, e) ↦
          (_, (refl, inl (rw hit (λ v h. nonnull (get "body" (fields_of fs)) v nothing h), e)))
      | inr (something, e) ↦ (_, (refl, inr (rw hit (e, rw⁻¹ e something))))
    ]

skipped_lem :
    (key : String) (default : Value) (fs : Fields) (choices : List Value) (m : Result FlagDetail)
    → is_key key (get "name" (fields_of fs)) ≡ false
    → FindsOrDefaults key default choices m
    → FindsOrDefaults key default (dict fs ∷ choices) m
skipped_lem key default fs choices m miss (d, (e, inl (none_served, same))) =
    (d, (e, inl (rw miss none_served, same)))
skipped_lem key default fs choices m miss (d, (e, inr h)) = (d, (e, inr (rw miss h)))

find_choice-FindsOrDefaults :
    (key : String) (default : Value) (choices : List Value)
    → All IsMapping choices
    → FindsOrDefaults key default choices (find_choice key default choices)
unfolding find_choice
find_choice-FindsOrDefaults key default [] wf = (_, (refl, inl ((λ v h. h), refl)))
find_choice-FindsOrDefaults key default (dict fs ∷ choices) wf =
    if-cases (FindsOrDefaults key default (dict fs ∷ choices))
      (is_key key (get "name" (fields_of fs))) _ _ (λ hit. found_lem key default fs choices _ hit)
      (λ miss.
        skipped_lem key default fs choices _ miss
          (find_choice-FindsOrDefaults key default choices wf.1))
find_choice-FindsOrDefaults key default (_ ∷ choices) wf = absurd wf.0

-- The service answered, and served `v` for the key.
abbrev pub Offers : String → Result Value → Value → Type 0
Offers key (ok response) v = Serves key (choices_of response) v
Offers key (raised e) v = ⊥

abbrev pub WellFormed : Value → Type 0
WellFormed response = All IsMapping (choices_of response)

-- A read that gives what the service served, or the default where it served nothing.
abbrev pub ReadsOrDefaults : String → Value → Result Value → Result Value → Type 0
ReadsOrDefaults key default answer m =
    (v : Value) × ((m ≡ ok v)
      × ((((v' : Value) → ¬ Offers key answer v') × (v ≡ default)) ⊎ Offers key answer v))

module _ {W : Type 0} (out : Outside W) where
  picked_lem :
      (key : String) (default : Value) (answer : Result Value × Session × W)
      → Ensures WellFormed answer.0
      → ReadsOrDefaults key default answer.0
          (map_result out (λ d. ok d.value) (pick out key default (choices_or_empty out answer))).0
  picked_lem key default (raised e, s, w) wf =
      (default, (unfold find_choice in refl, inl ((λ v h. h), refl)))
  picked_lem key default (ok response, s, w) wf =
      let (d, (e, h)) = find_choice-FindsOrDefaults key default (choices_of response) wf in
      (d.value, (rw e, h))

  picked_transport :
      (key : String) (default : Value) (answer : Result Value × Session × W)
      → (map_result out
          (λ d. ok d.value)
          (pick out key default (choices_or_empty out answer))).1.transport
        ≡ answer.1.transport
  picked_transport key default (raised e, s, w) = refl
  picked_transport key default (ok response, s, w) = refl

  -- A call of `variation` whose arguments pass the checks never raises, provided that the choices of an
  -- answer, if one came, are mappings: it returns the body that the service served for the key, or the
  -- default if the service served none for it, if the request failed in any way, or if the answer
  -- holds no list of choices. It makes the one request of `_choose_or_empty` and no other.
  pub variation-ReadsOrDefaults :
      (key : Value) (context : Option FlagContext) (default : Value) (s : Session) (w : W)
      (name : String) (known : FlagContext)
      → check_flag_call key context s ≡ ok (name, known)
      → (let answer = choose out known (list (items (str name ∷ []))) s w in
          Ensures WellFormed answer.0
          → ReadsOrDefaults name default answer.0 (variation out key context default s w).0
            × ((variation out key context default s w).1.transport ≡ answer.1.transport))
  unfolding variation variation_detail choose_or_empty
  variation-ReadsOrDefaults key context default s w name known checked wf =
      let answer = choose out known (list (items (str name ∷ []))) s w in
      rw checked (picked_lem name default answer wf, picked_transport name default answer)
