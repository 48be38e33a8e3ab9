-- ===== src/Python/Decode.antt =====
-- The way back from `quote`: what a server makes of a segment that has percent escapes.
use Prim.Native.Char.{Char, char, code}
use Prim.Native.Nat.{Ordering, compare}
use native.Mathlib.Omega.{compare-lt}
use Prim.Native.String.{[], ◌∷◌}
use mathlib.Core.List.{[] as nil, ◌∷◌ as cons}
use intempt_python.Prelude.{
  ℕ, zero, suc, ◌+◌, ◌*◌, ◌-◌, ◌/◌, ◌%◌, ◌<◌, String, true, false, List, ◌≡◌, ◌∙◌, refl, ap, arith,
  leb, if-cases, if◌then◌else◌,
}
use intempt_python.Prelude.{◌==◌ as eq_ℕ}
use intempt_python.Python.Encode.{is_unreserved, char_of, hex, percent, quote, utf8, utf8_char}

-- Where a decoder stands: outside an escape, after its `%`, or after its first digit.
pub data Place : Type 0 where
  plain first : Place
  second : ℕ → Place

-- The value of a hexadecimal digit of upper case, by its code.
abbrev pub digit : ℕ → ℕ
digit n = if leb n 57 then n - 48 else n - 55

-- The bytes of a text whose escapes are undone (RFC 3986, section 2.1).
unfoldable pub undo : Place → String → List ℕ
undo place [] = nil
undo plain (c ∷ s) =
    let escape = undo first s in
    let rest = undo plain s in if eq_ℕ (code c) 37 then escape else cons (code c) rest
undo first (c ∷ s) = undo (second (digit (code c))) s
undo (second d) (c ∷ s) = cons (d * 16 + digit (code c)) (undo plain s)

unfoldable pub unquoted : String → List ℕ
unquoted s = undo plain s

abbrev BothLt : Ordering → Ordering → Type 0
BothLt Ordering.lt Ordering.lt = Unit
BothLt _ _ = ⊥

-- `IsScalar`, by the results of its three comparisons.
abbrev IsScalarBy : Ordering → Ordering → Ordering → Type 0
IsScalarBy Ordering.lt b c = Unit
IsScalarBy Ordering.eq b c = BothLt b c
IsScalarBy Ordering.gt b c = BothLt b c

-- Of the three comparisons that make a number a scalar value, one of the outer two is `lt`.
scalar_lt :
    (n : ℕ) (a b c : Ordering)
    → compare n 55296 ≡ a
    → compare n 1114112 ≡ c
    → IsScalarBy a b c
    → n < 1114112
scalar_lt n Ordering.lt b c e e' h = omega (arith, compare-lt n 55296 e)
scalar_lt n Ordering.eq Ordering.lt Ordering.lt e e' h = compare-lt n 1114112 e'
scalar_lt n Ordering.gt Ordering.lt Ordering.lt e e' h = compare-lt n 1114112 e'
scalar_lt n _ _ _ e e' h = absurd h

code_lt : (c : Char) → code c < 1114112
code_lt (char n h) = scalar_lt n (compare n 55296) (compare 57343 n) (compare n 1114112) refl refl h

abbrev Numbers : ℕ → String → Type 0
Numbers i [] = Unit
Numbers i (c ∷ s) = (digit (code c) ≡ i) × Numbers (suc i) s

abbrev size : String → ℕ
size [] = 0
size (c ∷ s) = suc (size s)

digit-char_of :
    (i n : ℕ) (table : String)
    → Numbers i table
    → n < size table
    → digit (code (char_of table n)) ≡ i + n
unfolding char_of
digit-char_of i n [] h k = absurd (omega arith)
digit-char_of i zero (c ∷ s) h k = h.0 ∙ omega arith
digit-char_of i (suc n) (c ∷ s) h k = digit-char_of (suc i) n s h.1 (omega arith) ∙ omega arith

digit-hex : (n : ℕ) → digit (code (hex n)) ≡ n % 16
digit-hex n =
    digit-char_of 0 (n % 16) "0123456789ABCDEF"
      (
        refl,
        (
          refl,
          (
            refl,
            (
              refl,
              (
                refl,
                (
                  refl,
                  (
                    refl,
                    (refl, (refl, (refl, (refl, (refl, (refl, (refl, (refl, (refl, tt))))))))),
                  ),
                ),
              ),
            ),
          ),
        ),
      )
      (omega arith)
    ∙ omega arith

abbrev Bytes : List ℕ → Type 0
Bytes nil = Unit
Bytes (cons b bytes) = (b < 256) × Bytes bytes

-- In front of a text, as `utf8` puts the bytes of a character.
append_to : List ℕ → List ℕ → List ℕ
append_to nil rest = rest
append_to (cons b bytes) rest = cons b (append_to bytes rest)

undo-percent :
    (bytes : List ℕ) (rest : String)
    → Bytes bytes
    → undo plain (percent bytes rest) ≡ append_to bytes (undo plain rest)
unfolding undo percent append_to
undo-percent nil rest h = refl
undo-percent (cons b bytes) rest h =
    let e : (b / 16) % 16 * 16 + b % 16 ≡ b = omega (arith, h.0) in
    rw (digit-hex (b / 16), digit-hex b, e, undo-percent bytes rest h.1) refl

utf8_char-Bytes : (n : ℕ) → n < 1114112 → Bytes (utf8_char n nil)
unfolding utf8_char
utf8_char-Bytes n h = ground arith

utf8_char-append_to : (n : ℕ) (rest : List ℕ) → append_to (utf8_char n nil) rest ≡ utf8_char n rest
unfolding utf8_char append_to
utf8_char-append_to n rest = ground arith

unreserved_lem :
    (n : ℕ) (rest : List ℕ)
    → is_unreserved n ≡ true
    → (eq_ℕ n 37 ≡ false) × (utf8_char n rest ≡ cons n rest)
unfolding is_unreserved utf8_char
unreserved_lem n rest h = ground arith

-- Decoding what `quote` made of a text gives its UTF-8 bytes.
pub unquoted-quote : (s : String) → unquoted (quote s) ≡ utf8 s
unfolding quote utf8 unquoted undo
unquoted-quote [] = refl
unquoted-quote (c ∷ s) =
    if-cases (λ t. undo plain t ≡ utf8_char (code c) (utf8 s)) (is_unreserved (code c)) _ _
      (λ kept.
        let (other, same) = unreserved_lem (code c) (utf8 s) kept in
        rw (other, same, unquoted-quote s) refl)
      (λ escaped.
        undo-percent (utf8_char (code c) nil) (quote s) (utf8_char-Bytes (code c) (code_lt c))
        ∙ ap (append_to (utf8_char (code c) nil)) (unquoted-quote s)
        ∙ utf8_char-append_to (code c) (utf8 s))
