-- ===== src/Python/Encode.antt =====
-- The encodings of the standard library that the source calls: UTF-8, `base64.b64encode` and
-- `urllib.parse.quote` with `safe=""`.
use Prim.Native.Char.{Char, code}
use Prim.Native.String.{[], ◌∷◌}
use mathlib.Core.List.{[] as nil, ◌∷◌ as cons}
use intempt_python.Prelude.{
  ℕ, zero, suc, ◌+◌, ◌*◌, ◌/◌, ◌%◌, String, Bool, true, ◌&&◌, ◌||◌, List, ◌≡◌, refl, leb, ltb,
  if◌then◌else◌,
}
use intempt_python.Prelude.{◌==◌ as eq_ℕ}

-- The UTF-8 bytes of a code point, in front of others.
unfoldable pub utf8_char : ℕ → List ℕ → List ℕ
utf8_char n rest =
    if ltb n 128
    then cons n rest
    else if ltb n 2048
    then cons (192 + n / 64) (cons (128 + n % 64) rest)
    else if ltb n 65536
    then cons (224 + n / 4096) (cons (128 + n / 64 % 64) (cons (128 + n % 64) rest))
    else cons (240 + n / 262144)
        (cons (128 + n / 4096 % 64) (cons (128 + n / 64 % 64) (cons (128 + n % 64) rest)))

-- `text.encode()`
unfoldable pub utf8 : String → List ℕ
unfolding utf8_char
utf8 [] = nil
utf8 (c ∷ s) = utf8_char (code c) (utf8 s)

-- The character at an index of a table.
unfoldable pub char_of : String → ℕ → Char
char_of [] n = "?"
char_of (c ∷ s) zero = c
char_of (c ∷ s) (suc n) = char_of s n

abbrev base64_alphabet : String
base64_alphabet = "ABCDEFGHIJKLMNOPQRSTUVWXYZabcdefghijklmnopqrstuvwxyz0123456789+/"

abbrev sextet : ℕ → Char
sextet n = char_of base64_alphabet (n % 64)

-- Three bytes make four characters; the end is padded with `=`.
unfoldable pub base64 : List ℕ → String
unfolding char_of
base64 nil = []
base64 (cons a nil) = sextet (a / 4) ∷ sextet (a % 4 * 16) ∷ "=="
base64 (cons a (cons b nil)) =
    sextet (a / 4) ∷ sextet (a % 4 * 16 + b / 16) ∷ sextet (b % 16 * 4) ∷ "="
base64 (cons a (cons b (cons c rest))) =
    sextet (a / 4)
    ∷ sextet (a % 4 * 16 + b / 16)
    ∷ sextet (b % 16 * 4 + c / 64)
    ∷ sextet (c % 64)
    ∷ base64 rest

-- A letter, a digit, or one of `_.-~`: the characters that `quote` keeps.
unfoldable pub is_unreserved : ℕ → Bool
is_unreserved n =
    leb 65 n && leb n 90
    || (leb 97 n && leb n 122
        || (leb 48 n && leb n 57 || (eq_ℕ n 95 || (eq_ℕ n 46 || (eq_ℕ n 45 || eq_ℕ n 126)))))

abbrev pub hex : ℕ → Char
hex n = char_of "0123456789ABCDEF" (n % 16)

-- `%XX` for each byte
unfoldable pub percent : List ℕ → String → String
unfolding char_of
percent nil rest = rest
percent (cons b bytes) rest = "%" ∷ hex (b / 16) ∷ hex b ∷ percent bytes rest

-- `quote(text, safe="")`
unfoldable pub quote : String → String
unfolding is_unreserved percent utf8_char
quote [] = []
quote (c ∷ s) =
    let rest = quote s in
    if is_unreserved (code c) then c ∷ rest else percent (utf8_char (code c) nil) rest

encoded : base64 (utf8 "pk:s3cret") ≡ "cGs6czNjcmV0"
unfolding base64 utf8
encoded = refl

quoted : quote "a/b c~é" ≡ "a%2Fb%20c~%C3%A9"
unfolding quote
quoted = refl

-- Every character of a text passes a test.
abbrev pub AllChars : (ℕ → Type 0) → String → Type 0
AllChars P [] = Unit
AllChars P (c ∷ s) = P (code c) × AllChars P s

-- What may stand in one segment of a path: an unreserved character, or the `%` of an escape.
abbrev pub IsSegmentChar : ℕ → Type 0
IsSegmentChar n = (is_unreserved n || eq_ℕ n 37) ≡ true
