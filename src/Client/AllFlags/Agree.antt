-- ===== src/Client/AllFlags/Agree.antt =====
-- `all_flags` and `variation` read the same choices alike.
use text.Mathlib.Text.{◌==◌}
use text.Mathlib.TextEquality.{eq_iff}
use intempt_python.Prelude.{
  ℕ, ◌+◌, ◌≤◌, String, Bool, false, ◌&&◌, not, none, List, [], ◌∷◌, ◌≡◌, ◌∙◌, refl, sym, ap, arith,
  All, Bool-cases, inl, inr, if-cases, if◌then◌else◌,
}
use intempt_python.Python.Result.{Result, ok, Ensures, Ensures-weaken, bind-Ensured, ◌>>=◌}
use intempt_python.Python.Text.{is_nil}
use intempt_python.Python.Value.{Value, null, str, dict, get, fields_of, is_null, truthy}
use intempt_python.Client.Flags.{is_key, served, or_unanswered, find_choice}
use intempt_python.Client.Flags.Variation.{served_lem}
use intempt_python.Client.AllFlags.{Flags, store, collect}
use intempt_python.Client.AllFlags.Dictionary.{
  IsText, stored, stored_or, TextKeys, put-TextKeys, stored-put_same, stored-put_other,
}

-- A choice that is a mapping, and whose name is a text.
abbrev pub IsNamed : Value → Type 0
IsNamed (dict fs) = IsText (get "name" (fields_of fs))
IsNamed v = ⊥

abbrev is_named : String → Value → Bool
is_named key (dict fs) = is_key key (get "name" (fields_of fs))
is_named key v = false

-- How many choices have this name.
abbrev pub occurrences : String → List Value → ℕ
occurrences key [] = 0
occurrences key (choice ∷ choices) =
    (if is_named key choice then 1 else 0) + occurrences key choices

-- What one turn of the loop keeps, of a choice with another name.
store_other :
    (key m : String) (body : Value) (flags : Flags)
    → (m == key) ≡ false
    → TextKeys flags
    → Ensures (λ out. TextKeys out × (stored key out ≡ stored key flags)) (store (str m) body flags)
store_other key m body flags other h =
    if-cases (Ensures (λ out. TextKeys out × (stored key out ≡ stored key flags)))
      (truthy (str m) && not (is_null body)) _ _
      (λ _. (put-TextKeys m body flags h, stored-put_other key m body flags other h))
      (λ _. (h, refl))

named_other :
    (key : String) (name body : Value) (flags : Flags)
    → IsText name
    → is_key key name ≡ false
    → TextKeys flags
    → Ensures (λ out. TextKeys out × (stored key out ≡ stored key flags)) (store name body flags)
named_other key (str m) body flags t other h = store_other key m body flags other h
named_other key _ body flags t other h = absurd t

-- Choices of other names change nothing of a key.
collect_other :
    (key : String) (choices : List Value) (flags : Flags)
    → All IsNamed choices
    → occurrences key choices ≡ 0
    → TextKeys flags
    → Ensures (λ out. stored key out ≡ stored key flags) (collect choices flags)
unfolding collect
collect_other key [] flags named once h = refl
collect_other key (dict fs ∷ choices) flags named once h =
    let name = get "name" (fields_of fs) in
    let body = get "body" (fields_of fs) in
    bind-Ensured (λ out. TextKeys out × (stored key out ≡ stored key flags))
      (λ out. stored key out ≡ stored key flags) (store name body flags) (collect choices)
      (named_other key name body flags named.0 (ground arith) h)
      (λ flags' (h', same).
        Ensures-weaken (λ out. stored key out ≡ stored key flags')
          (λ out. stored key out ≡ stored key flags) (collect choices flags') (λ out e. e ∙ same)
          (collect_other key choices flags' named.1 (ground arith) h'))
collect_other key (_ ∷ choices) flags named once h = absurd named.0

-- What `variation` and `all_flags` say of a key agrees.
abbrev pub Agrees : String → Value → List Value → Flags → Type 0
Agrees key default choices out =
    Ensures (λ d. d.value ≡ stored_or default (stored key out)) (find_choice key default choices)

-- The choice of this name: it is stored exactly if it has a body.
store_same :
    (key : String) (body default : Value) (flags : Flags)
    → is_nil key ≡ false
    → TextKeys flags
    → stored key flags ≡ none
    → Ensures
        (λ out. TextKeys out × (served default body ≡ stored_or default (stored key out)))
        (store (str key) body flags)
unfolding truthy
store_same key body default flags long h missing = elim (served_lem default body) [
  | inl (empty, e) ↦ rw (empty) (
      if-cases {A = Result Flags}
        (Ensures (λ out. TextKeys out × (served default null ≡ stored_or default (stored key out))))
        (truthy (str key) && not (is_null null)) _ _ (λ hit. absurd (ground arith))
        (λ _. (h, rw missing refl)))
  | inr (full, e) ↦
      if-cases {A = Result Flags}
        (Ensures (λ out. TextKeys out × (served default body ≡ stored_or default (stored key out))))
        (truthy (str key) && not (is_null body)) _ _
        (λ _. (put-TextKeys key body flags h, rw (stored-put_same key body flags h) (sym e)))
        (λ miss. absurd (ground arith))
]

-- The result of one turn, by whether the choice has the name.
turn :
    (key : String) (default name body reason : Value) (choices : List Value) (flags : Flags)
    → is_nil key ≡ false
    → IsText name
    → All IsNamed choices
    → (if is_key key name then 1 else 0) + occurrences key choices ≤ 1
    → TextKeys flags
    → stored key flags ≡ none
    → ((flags' : Flags)
        → occurrences key choices ≤ 1
        → TextKeys flags'
        → stored key flags' ≡ none
        → Ensures (Agrees key default choices) (collect choices flags'))
    → Ensures
        (λ out.
          Ensures
            (λ d. d.value ≡ stored_or default (stored key out))
            (if is_key key name
              then ok (record { value = served default body; reason = reason })
              else find_choice key default choices))
        (store name body flags >>= collect choices)
turn key default (str m) body reason choices flags long t named once h missing rest =
    elim (Bool-cases (m == key)) [
      | inl same ↦ rw same (
          let e : m ≡ key = (eq_iff m key).0 same in
          bind-Ensured
            (λ out. TextKeys out × (served default body ≡ stored_or default (stored key out)))
            (λ out. served default body ≡ stored_or default (stored key out))
            (store (str m) body flags) (collect choices)
            (rw e (store_same key body default flags long h missing))
            (λ flags' (h', kept).
              Ensures-weaken (λ out. stored key out ≡ stored key flags')
                (λ out. served default body ≡ stored_or default (stored key out))
                (collect choices flags') (λ out e'. kept ∙ ap (stored_or default) (sym e'))
                (collect_other key choices flags' named (ground arith) h')))
      | inr other ↦ rw other (
          bind-Ensured (λ out. TextKeys out × (stored key out ≡ stored key flags))
            (Agrees key default choices) (store (str m) body flags) (collect choices)
            (store_other key m body flags other h)
            (λ flags' (h', kept). rest flags' (ground arith) h' (kept ∙ missing)))
    ]
turn key default _ body reason choices flags long t named once h missing rest = absurd t

agree_from :
    (key : String) (default : Value) (choices : List Value) (flags : Flags)
    → is_nil key ≡ false
    → All IsNamed choices
    → occurrences key choices ≤ 1
    → TextKeys flags
    → stored key flags ≡ none
    → Ensures (Agrees key default choices) (collect choices flags)
unfolding collect find_choice
agree_from key default [] flags long named once h missing = rw missing refl
agree_from key default (dict fs ∷ choices) flags long named once h missing =
    turn key default (get "name" (fields_of fs)) (get "body" (fields_of fs))
      (or_unanswered (get "reason" (fields_of fs))) choices flags long named.0 named.1 once h
      missing
      (λ flags' once' h' missing'.
        agree_from key default choices flags' long named.1 once' h' missing')
agree_from key default (_ ∷ choices) flags long named once h missing = absurd named.0

-- On the same choices, each a mapping whose name is a text, `all_flags` and `variation` agree on a key
-- that is not empty and that no two of the choices have: what the loop of `variation` returns is what
-- the dictionary of `all_flags` holds under the key, or the default if it holds nothing there.
pub collect-Agrees :
    (key : String) (default : Value) (choices : List Value)
    → is_nil key ≡ false
    → All IsNamed choices
    → occurrences key choices ≤ 1
    → Ensures (Agrees key default choices) (collect choices [])
collect-Agrees key default choices long named once =
    agree_from key default choices [] long named once tt refl
