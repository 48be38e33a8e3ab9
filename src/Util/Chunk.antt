-- ===== src/Util/Chunk.antt =====
-- `chunk`: the groups are the items, cut into pieces of the size, the last the remainder.
use intempt_python.Prelude.{
  ℕ, zero, suc, ◌+◌, ◌≤◌, ◌<◌, List, [], ◌∷◌, ◌++◌, map, ◌≡◌, ◌∙◌, ap, sym, ◌⊎◌, refl, arith,
  length, drop, ltb, length-take, length-drop, take-append-drop, Bool-cases, inl, inr,
}
use Prim.Native.Nat.add
use native.Mathlib.Nat.{zero-add}
use intempt_python.Python.Float.{pos}
use intempt_python.Python.Result.{ok}
use intempt_python.Util.{range, slice, chunk}

range_ends : (fuel i stop step : ℕ) → (i < stop) ⊎ (range fuel i stop step ≡ [])
unfolding range
range_ends zero i stop step = inr refl
range_ends (suc fuel) i stop step = ground arith

module _ {ℓ} {A : Type ℓ} where
  abbrev pub concat : List (List A) → List A
  concat [] = []
  concat (g ∷ gs) = g ++ concat gs

  -- Every group has `size` items, but the last may have fewer; none is empty.
  abbrev pub IsCut : ℕ → List (List A) → Type 0
  IsCut size [] = Unit
  IsCut size (g ∷ []) = (1 ≤ length g) × (length g ≤ size)
  IsCut size (g ∷ g' ∷ gs) = (length g ≡ size) × IsCut size (g' ∷ gs)

module _ {ℓ} {A : Type ℓ} where
  drop-nil : (j : ℕ) → drop {A = A} j [] ≡ []
  drop-nil zero = refl
  drop-nil (suc j) = refl

  drop-drop : (i j : ℕ) (xs : List A) → drop j (drop i xs) ≡ drop (i + j) xs
  drop-drop zero j xs = rw zero-add
  drop-drop (suc i) j [] = drop-nil j ∙ sym (drop-nil (suc i + j))
  drop-drop (suc i) j (x ∷ xs) = rw (add.suc i j) (drop-drop i j xs)

  drop-all : (i : ℕ) (xs : List A) → length xs ≤ i → drop i xs ≡ []
  drop-all zero [] h = refl
  drop-all zero (x ∷ xs) h = absurd (omega arith)
  drop-all (suc i) [] h = refl
  drop-all (suc i) (x ∷ xs) h = drop-all i xs (omega arith)

  concat-range :
      (items : List A) (size fuel i : ℕ)
      → 1 ≤ size
      → length items ≤ i + fuel
      → concat (map (slice items size) (range fuel i (length items) size)) ≡ drop i items
  unfolding range
  concat-range items size zero i h k = rw (drop-all i items (omega arith))
  concat-range items size (suc fuel) i h k = elim (Bool-cases (ltb i (length items))) [
    | inl more ↦
        rw (more, concat-range items size fuel (i + size) h (omega arith), ← drop-drop i size items)
          (take-append-drop size (drop i items))
    | inr done ↦ rw (done, drop-all i items (ground arith))
  ]

  -- A group in front of others: full, unless it is the last.
  IsCut-cons :
      (size : ℕ) (g : List A) (gs : List (List A))
      → 1 ≤ length g
      → length g ≤ size
      → (length g ≡ size) ⊎ (gs ≡ [])
      → IsCut size gs
      → IsCut size (g ∷ gs)
  IsCut-cons size g [] some_item le last cut = (some_item, le)
  IsCut-cons size g (g' ∷ gs) some_item le (inl full) cut = (full, cut)
  IsCut-cons size g (g' ∷ gs) some_item le (inr last) cut = absurd (cc)

  -- The first group, where another follows only if the size fits into what is left.
  slice-IsCut :
      (items : List A) (size i : ℕ) (gs : List (List A))
      → 1 ≤ size
      → i < length items
      → (i + size < length items) ⊎ (gs ≡ [])
      → IsCut size gs
      → IsCut size (slice items size i ∷ gs)
  slice-IsCut items size i gs h more follow cut =
      let measured = length-take size (drop i items) in
      let left = length-drop i items in
      IsCut-cons size (slice items size i) gs (omega (arith, measured, left))
        (omega (arith, measured))
        (elim follow [
          | inl others ↦ inl (omega (arith, measured, left))
          | inr none_left ↦ inr none_left
        ])
        cut

  range-IsCut :
      (items : List A) (size fuel i : ℕ)
      → 1 ≤ size
      → length items ≤ i + fuel
      → IsCut size (map (slice items size) (range fuel i (length items) size))
  unfolding range
  range-IsCut items size zero i h k = tt
  range-IsCut items size (suc fuel) i h k = elim (Bool-cases (ltb i (length items))) [
    | inl more ↦
        let gs = map (slice items size) (range fuel (i + size) (length items) size) in
        rw more (
          slice-IsCut items size i gs h (ground arith)
            (elim (range_ends fuel (i + size) (length items) size) [
              | inl others ↦ inl others
              | inr none_left ↦ inr (ap (map (slice items size)) none_left)
            ])
            (range-IsCut items size fuel (i + size) h (omega arith)))
    | inr done ↦ rw done tt
  ]

  -- `chunk` with a positive size returns groups which, one after the other, are the items, each of
  -- exactly that size but the last, which has at least one item and at most so many.
  pub chunk_lem :
      (items : List A) (size : ℕ)
      → 1 ≤ size
      → (groups : List (List A)) × (chunk items (pos size) ≡ ok groups)
        × (concat groups ≡ items)
        × IsCut size groups
  chunk_lem items zero h = absurd (omega arith)
  chunk_lem items (suc n) h = (
    map (slice items (suc n)) (range (length items) 0 (length items) (suc n)),
    unfold chunk in refl,
    concat-range items (suc n) (length items) 0 h (omega arith),
    range-IsCut items (suc n) (length items) 0 h (omega arith),
  )
