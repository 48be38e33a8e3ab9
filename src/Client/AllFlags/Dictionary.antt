-- ===== src/Client/AllFlags/Dictionary.antt =====
-- What the dictionary of `all_flags` holds under a text.
use text.Mathlib.Text.{◌==◌}
use text.Mathlib.TextEquality.{eq_iff}
use intempt_python.Prelude.{
  String, false, Option, none, some, [], ◌∷◌, ◌≡◌, refl, All, if-cases, if◌then◌else◌,
}
use intempt_python.Python.Value.{Value, str}
use intempt_python.Client.Flags.{is_key}
use intempt_python.Client.AllFlags.{Flags, same_key, put}

abbrev pub IsText : Value → Type 0
IsText (str s) = Unit
IsText v = ⊥

-- What `flags.get(key)` finds in the dictionary of `all_flags`.
abbrev pub stored : String → Flags → Option Value
stored key [] = none
stored key ((k, v) ∷ rest) = let found = stored key rest in if is_key key k then some v else found

-- `flags.get(key, default)`
abbrev pub stored_or : Value → Option Value → Value
stored_or default none = default
stored_or default (some v) = v

abbrev pub TextKeys : Flags → Type 0
TextKeys = All (λ (k, v). IsText k)

pub put-TextKeys :
    (m : String) (body : Value) (flags : Flags) → TextKeys flags → TextKeys (put (str m) body flags)
unfolding put
put-TextKeys m body [] h = (tt, tt)
put-TextKeys m body ((k, v) ∷ rest) h =
    if-cases TextKeys (same_key k (str m)) ((k, body) ∷ rest) _ (λ _. (h.0, h.1))
      (λ _. (h.0, put-TextKeys m body rest h.1))

pub stored-put_same :
    (key : String) (body : Value) (flags : Flags)
    → TextKeys flags
    → stored key (put (str key) body flags) ≡ some body
unfolding put same_key
stored-put_same key body [] h = rw ((eq_iff key key).1 refl) refl
stored-put_same key body ((str s, v) ∷ rest) h =
    if-cases (λ flags. stored key flags ≡ some body) (s == key) ((str s, body) ∷ rest) _
      (λ same. rw same refl) (λ other. rw other (stored-put_same key body rest h.1))
stored-put_same key body ((_, v) ∷ rest) h = absurd h.0

pub stored-put_other :
    (key m : String) (body : Value) (flags : Flags)
    → (m == key) ≡ false
    → TextKeys flags
    → stored key (put (str m) body flags) ≡ stored key flags
unfolding put same_key
stored-put_other key m body [] other h = rw other refl
stored-put_other key m body ((str s, v) ∷ rest) other h =
    if-cases (λ flags. stored key flags ≡ (if s == key then some v else stored key rest)) (s == m)
      ((str s, body) ∷ rest) _ (λ same. rw ((eq_iff s m).0 same, other) refl)
      (λ _. rw (stored-put_other key m body rest other h.1) refl)
stored-put_other key m body ((_, v) ∷ rest) other h = absurd h.0
