-- ===== src/Python/Segment.antt =====
-- The characters of a text that `quote` has encoded.
use Prim.Native.Char.{code}
use Prim.Native.String.{[], ◌∷◌}
use mathlib.Core.List.{[] as nil, ◌∷◌ as cons}
use intempt_python.Prelude.{ℕ, zero, suc, ◌/◌, ◌%◌, ◌<◌, String, List, refl, arith, if-cases}
use intempt_python.Python.Encode.{
  AllChars, IsSegmentChar, is_unreserved, char_of, hex, percent, quote,
}

-- A text that may stand as one segment of a path.
abbrev pub IsSegment : String → Type 0
IsSegment s = AllChars IsSegmentChar s

abbrev size : String → ℕ
size [] = 0
size (c ∷ s) = suc (size s)

char_of-IsSegmentChar :
    (table : String) (n : ℕ)
    → IsSegment table
    → n < size table
    → IsSegmentChar (code (char_of table n))
unfolding char_of
char_of-IsSegmentChar [] n all k = absurd (omega arith)
char_of-IsSegmentChar (c ∷ s) zero all k = all.0
char_of-IsSegmentChar (c ∷ s) (suc n) all k = char_of-IsSegmentChar s n all.1 (omega arith)

hex_digits-IsSegment : IsSegment "0123456789ABCDEF"
unfolding is_unreserved
hex_digits-IsSegment = (
  refl,
  (
    refl,
    (
      refl,
      (
        refl,
        (
          refl,
          (
            refl,
            (refl, (refl, (refl, (refl, (refl, (refl, (refl, (refl, (refl, (refl, tt)))))))))),
          ),
        ),
      ),
    ),
  ),
)

hex-IsSegmentChar : (n : ℕ) → IsSegmentChar (code (hex n))
hex-IsSegmentChar n =
    char_of-IsSegmentChar "0123456789ABCDEF" (n % 16) hex_digits-IsSegment (omega arith)

percent-IsSegment :
    (bytes : List ℕ) (rest : String) → IsSegment rest → IsSegment (percent bytes rest)
unfolding percent
percent-IsSegment nil rest h = h
percent-IsSegment (cons b bytes) rest h = (
  unfold is_unreserved in refl,
  (hex-IsSegmentChar (b / 16), (hex-IsSegmentChar b, percent-IsSegment bytes rest h)),
)

-- `quote` leaves nothing in a text that ends a segment of a path.
pub quote-IsSegment : (s : String) → IsSegment (quote s)
unfolding quote
quote-IsSegment [] = tt
quote-IsSegment (c ∷ s) =
    if-cases IsSegment (is_unreserved (code c)) _ _ (λ h. (rw h refl, quote-IsSegment s))
      (λ h. percent-IsSegment _ _ (quote-IsSegment s))
