-- ===== src/Python/Text.antt =====
-- `str`: the methods that the source calls, over the native text, which is a list of code points.
use Prim.Native.Char.{Char, code}
use Prim.Native.String.{[], ◌∷◌}
use intempt_python.Prelude.{ℕ, ◌+◌, String, Bool, true, false, ◌&&◌, ◌||◌, leb, ltb, if◌then◌else◌}
use intempt_python.Prelude.{◌==◌ as eq_ℕ}

abbrev pub is_nil : String → Bool
is_nil [] = true
is_nil (c ∷ s) = false

-- `str.isspace` of one character.
unfoldable pub is_space : Char → Bool
is_space c =
    let n = code c in
    leb 9 n && leb n 13
    || (leb 28 n && leb n 32
        || (leb 8192 n && leb n 8202
            || (eq_ℕ n 133
                || (eq_ℕ n 160
                    || (eq_ℕ n 5760
                        || (eq_ℕ n 8232
                            || (eq_ℕ n 8233 || (eq_ℕ n 8239 || (eq_ℕ n 8287 || eq_ℕ n 12288)))))))))

unfoldable pub strip_left : String → String
strip_left [] = []
strip_left (c ∷ s) = if is_space c then strip_left s else c ∷ s

unfoldable pub strip_right : String → String
strip_right [] = []
strip_right (c ∷ s) = let rest = strip_right s in if is_space c && is_nil rest then [] else c ∷ rest

-- `s.strip()`
unfoldable pub strip : String → String
strip s = strip_right (strip_left s)

-- `not s.strip()`
unfoldable pub is_blank : String → Bool
is_blank s = is_nil (strip s)

-- `s.partition(sep)` with a separator of one character: what is before it, and what is after the
-- first one. Without a separator the second part is empty.
unfoldable pub partition : Char → String → String × String
partition sep [] = ([], [])
partition sep (c ∷ s) =
    let (before, after) = partition sep s in
    if eq_ℕ (code c) (code sep) then ([], s) else (c ∷ before, after)

-- `sep in s`
unfoldable pub contains : Char → String → Bool
contains sep [] = false
contains sep (c ∷ s) = eq_ℕ (code c) (code sep) || contains sep s

-- Text is ordered by its code points.
unfoldable pub precedes : String → String → Bool
precedes [] t = true
precedes (c ∷ s) [] = false
precedes (c ∷ s) (d ∷ t) =
    let rest = precedes s t in if eq_ℕ (code c) (code d) then rest else ltb (code c) (code d)

-- A character of `[a-zA-Z0-9_-]`.
abbrev pub is_name_char : Char → Bool
is_name_char c =
    let n = code c in
    leb 97 n && leb n 122
    || (leb 65 n && leb n 90 || (leb 48 n && leb n 57 || (eq_ℕ n 95 || eq_ℕ n 45)))

-- `re.match("^[a-zA-Z0-9_-]+$", s)`, where `$` also matches before a newline at the end; `seen` says
-- whether a character of the class stands before.
unfoldable pub matches_name : Bool → String → Bool
matches_name seen [] = seen
matches_name seen (c ∷ s) =
    let rest = matches_name true s in
    if is_name_char c then rest else eq_ℕ (code c) 10 && (seen && is_nil s)

unfoldable pub is_name : String → Bool
unfolding matches_name
is_name s = matches_name false s

abbrev fold : ℕ → ℕ
fold n = if leb 65 n && leb n 90 then n + 32 else n

-- `s.lower() == t`, for a `t` of small ASCII letters none of which is the lower case of a character
-- outside ASCII, as only `k` is.
unfoldable pub lowers_to : String → String → Bool
lowers_to [] [] = true
lowers_to [] (d ∷ t) = false
lowers_to (c ∷ s) [] = false
lowers_to (c ∷ s) (d ∷ t) = let rest = lowers_to s t in eq_ℕ (fold (code c)) (code d) && rest
