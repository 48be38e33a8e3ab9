-- ===== src/Python/Float.antt =====
-- `float`: binary64 numbers as the fractions that they are, with the rounding of IEEE 754. Numbers
-- below the normal range (2 ^ -1022) round as if the exponent had no lower end.
use intempt_python.Prelude.{
  ℕ, zero, suc, ◌+◌, ◌-◌, ◌*◌, ◌/◌, ◌%◌, ◌^◌, ◌≡◌, refl, Bool, true, false, ◌&&◌, ◌||◌, not, ltb,
  leb, ◌==◌, if◌then◌else◌,
}

-- `negsuc n` is -(n + 1).
pub data ℤ : Type 0 where
  pos : ℕ → ℤ
  negsuc : ℕ → ℤ

-- `finite negative n k` is `n / 2 ^ k`, negated if `negative`.
pub data Float : Type 0 where
  nan infinity neg_infinity : Float
  finite : Bool → ℕ → ℕ → Float

-- The number of binary digits; any fuel from the number on is enough.
bits_fuel : ℕ → ℕ → ℕ
bits_fuel zero n = 0
bits_fuel (suc f) n = let rest = bits_fuel f (n / 2) in if n == 0 then 0 else rest + 1

unfoldable pub bits : ℕ → ℕ
unfolding bits_fuel
bits n = bits_fuel n n

-- `n / d` rounded to the nearest whole number, a tie to the even one.
unfoldable pub round_even : ℕ → ℕ → ℕ
round_even n d =
    let q = n / d in
    let twice = n % d * 2 in if ltb d twice || twice == d && q % 2 == 1 then q + 1 else q

-- The largest exponent: a magnitude of `2 ^ 1024` or more is infinite.
abbrev pub max_exponent : ℕ
max_exponent = 1024

unfoldable pub to_float : Bool → ℕ → ℕ → Float
to_float negative n k =
    if leb (2 ^ max_exponent * 2 ^ k) n
    then (if negative then neg_infinity else infinity)
    else finite negative n k

-- The float nearest to `n / d`: 53 binary digits of it.
unfoldable pub of_ratio : Bool → ℕ → ℕ → Float
unfolding bits round_even to_float
of_ratio negative n d =
    let up = 53 + bits d - bits n in
    let down = bits n - (53 + bits d) in
    let wide = leb (2 ^ 53 * (d * 2 ^ down)) (n * 2 ^ up) in
    if wide && up == 0
    then to_float negative (round_even n (d * 2 ^ (down + 1)) * 2 ^ (down + 1)) 0
    else if wide
    then to_float negative (round_even (n * 2 ^ (up - 1)) d) (up - 1)
    else to_float negative (round_even (n * 2 ^ up) (d * 2 ^ down) * 2 ^ down) up

-- `x * k` for a whole number `k`.
unfoldable pub scale : ℕ → Float → Float
unfolding of_ratio
scale k nan = nan
scale k infinity = if k == 0 then nan else infinity
scale k neg_infinity = if k == 0 then nan else neg_infinity
scale k (finite negative n s) = of_ratio negative (n * k) (2 ^ s)

-- `a / d - b / d`, each with its sign, rounded.
difference : Bool → ℕ → Bool → ℕ → ℕ → Float
difference false a true b d = of_ratio false (a + b) d
difference true a false b d = of_ratio true (a + b) d
difference negative a _ b d =
    if ltb a b
    then of_ratio (not negative) (b - a) d
    else of_ratio (negative && not (a == b)) (a - b) d

-- `x - y`
unfoldable pub subtract : Float → Float → Float
unfolding difference
subtract nan y = nan
subtract x nan = nan
subtract infinity infinity = nan
subtract neg_infinity neg_infinity = nan
subtract infinity y = infinity
subtract neg_infinity y = neg_infinity
subtract x infinity = neg_infinity
subtract x neg_infinity = infinity
subtract (finite s a k) (finite t b j) = difference s (a * 2 ^ j) t (b * 2 ^ k) (2 ^ (k + j))

-- `math.isfinite(x)`
abbrev pub is_finite : Float → Bool
is_finite nan = false
is_finite infinity = false
is_finite neg_infinity = false
is_finite (finite negative n k) = true

-- `x < 0`
abbrev pub is_negative : Float → Bool
is_negative nan = false
is_negative infinity = false
is_negative neg_infinity = true
is_negative (finite negative n k) = negative && not (n == 0)

-- `x <= 0`
abbrev pub is_not_positive : Float → Bool
is_not_positive nan = false
is_not_positive infinity = false
is_not_positive neg_infinity = true
is_not_positive (finite negative n k) = negative || n == 0

abbrev pub signed : Bool → ℕ → ℤ
signed false n = pos n
signed true zero = pos 0
signed true (suc n) = negsuc n

-- `int(x)` of a finite number: towards zero.
abbrev pub truncate : Bool → ℕ → ℕ → ℤ
truncate negative n k = signed negative (n / 2 ^ k)

abbrev pub abs : ℤ → ℕ
abs (pos n) = n
abs (negsuc n) = suc n

abbrev pub is_negative_int : ℤ → Bool
is_negative_int (pos n) = false
is_negative_int (negsuc n) = true

-- `float(i)`
unfoldable pub of_int : ℤ → Float
unfolding of_ratio
of_int i = of_ratio (is_negative_int i) (abs i) 1

-- 0.29 * 1000 is 290.0, though the float 0.29 is below 29 / 100.
product_rounds : scale 1000 (of_ratio false 29 100) ≡ finite false (290 * 2 ^ 44) 44
unfolding scale
product_rounds = refl

third : of_ratio false 1 3 ≡ finite false 6004799503160661 54
unfolding of_ratio
third = refl

overflows : scale 1000 (of_ratio false (10 ^ 306) 1) ≡ infinity
unfolding scale
overflows = refl
