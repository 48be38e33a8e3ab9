-- ===== src/Util.antt =====
-- intempt/_util.py
pub mod Chunk
mod Tests
use Prim.Native.String.{◌++◌}
use text.Mathlib.Text.{◌==◌}
use intempt_python.Prelude.{
  ℕ, zero, suc, ◌+◌, ◌-◌, ◌^◌, String, Bool, true, false, ◌||◌, Option, none, some, List, [], ◌∷◌,
  map, length, take, drop, is_empty, ltb, if◌then◌else◌,
}
use intempt_python.Errors.{config_error, other_error}
use intempt_python.Python.Float.{
  ℤ, pos, negsuc, Float, nan, infinity, neg_infinity, finite, truncate, abs, is_negative_int,
  of_ratio, scale, of_int, is_finite,
}
use intempt_python.Python.Text.{is_blank}
use intempt_python.Python.Value.{
  Value, null, bool, int, float, str, bytes, datetime, list, dict, object, DateTime, Options, get,
  is_null, present, type_name,
}
use intempt_python.Python.Result.{Result, ok, raised, ◌>>=◌}

abbrev pub log_levels : List String
log_levels = "debug" ∷ "info" ∷ "warning" ∷ "error" ∷ []

-- `int(x)`
unfoldable pub int_of_float : Float → Result ℤ
int_of_float nan = raised (other_error "ValueError")
int_of_float infinity = raised (other_error "OverflowError")
int_of_float neg_infinity = raised (other_error "OverflowError")
int_of_float (finite negative n k) = ok (truncate negative n k)

-- The sum of the microseconds of a wall clock and of an offset that is subtracted, as a pair of
-- what is added and what is taken away.
abbrev minus : ℤ → ℤ → ℤ
minus (pos a) (pos b) = if ltb a b then negsuc (b - a - 1) else pos (a - b)
minus (pos a) (negsuc b) = pos (a + suc b)
minus (negsuc a) (pos b) = negsuc (a + b)
minus (negsuc a) (negsuc b) = if ltb b a then negsuc (a - b - 1) else pos (b - a)

-- The microseconds since the epoch: a naive `datetime` is read as UTC.
unfoldable pub microseconds : DateTime → ℤ
microseconds d = elim d.offset [ none ↦ d.wall | some offset ↦ minus d.wall offset ]

-- `moment.timestamp()`
unfoldable pub posix_timestamp : DateTime → Float
unfolding microseconds of_ratio
posix_timestamp d = let us = microseconds d in of_ratio (is_negative_int us) (abs us) (10 ^ 6)

unfoldable pub ensure_timestamp : Value → Result ℤ
unfolding posix_timestamp scale int_of_float of_int
ensure_timestamp (datetime d) = int_of_float (scale 1000 (posix_timestamp d))
ensure_timestamp (int i) =
    if is_finite (of_int i) then ok i else raised (other_error "OverflowError")
ensure_timestamp (float x) =
    if is_finite x
    then int_of_float x
    else raised (config_error "timestamp must be a finite number of milliseconds")
ensure_timestamp v =
    raised
      (config_error ("timestamp must be a datetime or epoch milliseconds, got " ++ type_name v))

-- `range(i, stop, step)` for a positive step; `stop` is fuel enough.
unfoldable pub range : ℕ → ℕ → ℕ → ℕ → List ℕ
range zero i stop step = []
range (suc fuel) i stop step =
    let rest = range fuel (i + step) stop step in if ltb i stop then i ∷ rest else []

module _ {ℓ} {A : Type ℓ} where
  -- `list(items[i : i + size])`
  abbrev pub slice : List A → ℕ → ℕ → List A
  slice items size i = take size (drop i items)

  unfoldable pub chunk : List A → ℤ → Result (List (List A))
  unfolding range
  chunk items (negsuc n) = raised (config_error "chunk size must be at least 1")
  chunk items (pos zero) = raised (config_error "chunk size must be at least 1")
  chunk items (pos (suc n)) =
      ok (map (slice items (suc n)) (range (length items) 0 (length items) (suc n)))

unfoldable pub compact : Options → Options
compact [] = []
compact ((k, v) ∷ rest) = let others = compact rest in if is_null v then others else (k, v) ∷ others

abbrev pub mem : String → List String → Bool
mem name [] = false
mem name (x ∷ xs) = x == name || mem name xs

-- `callable(getattr(value, name, None))`: none of the levels is a method of a built-in value.
unfoldable pub has_method : Value → String → Bool
has_method (object class methods) name = mem name methods
has_method v name = false

unfoldable pub missing_methods : Value → List String → List String
unfolding has_method
missing_methods logger [] = []
missing_methods logger (name ∷ names) =
    let others = missing_methods logger names in
    if has_method logger name then others else name ∷ others

-- `", ".join(names)`
unfoldable pub join_comma : List String → String
join_comma [] = ""
join_comma (name ∷ []) = name
join_comma (name ∷ name' ∷ names) = name ++ ", " ++ join_comma (name' ∷ names)

unfoldable pub assert_logger : Value → Result (Unit {0})
unfolding missing_methods
assert_logger logger =
    let missing = missing_methods logger log_levels in
    if is_empty missing
    then ok tt
    else raised (
        config_error (
          "logger must implement " ++ join_comma log_levels ++ "; missing: " ++ join_comma missing))

unfoldable pub non_blank : Value → String → String → Result String
non_blank (str s) method field =
    if is_blank s
    then raised (config_error (method ++ ": " ++ field ++ " must be a non-empty string"))
    else ok s
non_blank v method field =
    raised (config_error (method ++ ": " ++ field ++ " must be a non-empty string"))

unfoldable pub require_identifier : Options → String → Result (Unit {0})
require_identifier options method =
    if present (get "user_id" options)
      || (present (get "account_id" options) || present (get "profile_id" options))
    then ok tt
    else raised (config_error (method ++ ": one of user_id or account_id is required"))
