-- ===== src/Transport/RetryAfter.antt =====
-- intempt/_transport.py: `parse_retry_after`.
use intempt_python.Prelude.{ℕ, String, ◌||◌, not, Option, none, some, if◌then◌else◌}
use intempt_python.Python.Float.{ℤ, pos, negsuc, Float, is_finite, is_negative, scale, subtract}
use intempt_python.Python.Result.{Result, ok, raised, ◌>>=◌}
use intempt_python.Python.Text.{is_nil}
use intempt_python.Transport.State.{Net}
use intempt_python.Util.{int_of_float}

-- `max(0, i)`
abbrev pub at_least_zero : ℤ → ℕ
at_least_zero (pos n) = n
at_least_zero (negsuc n) = 0

-- The wait of a number of seconds, once it is known to be neither negative nor infinite nor a NaN.
abbrev pub milliseconds : Float → Result (Option ℕ)
milliseconds x = int_of_float x >>= λ i. ok (some (at_least_zero i))

unfoldable pub of_seconds : Float → Result (Option ℕ)
of_seconds seconds =
    if not (is_finite seconds) || is_negative seconds
    then ok none
    else milliseconds (scale 1000 seconds)

module _ {W : Type 0} (net : Net W) where
  -- The wait until an instant, and the clock's new state.
  unfoldable pub until : Float → W → Result (Option ℕ) × W
  until instant w =
      let (now, w') = net.time w in
      (milliseconds (subtract (scale 1000 instant) (scale 1000 now)), w')

  abbrev pub of_date : Option (Result Float) → W → Result (Option ℕ) × W
  of_date none w = (ok none, w)
  of_date (some (raised e)) w = (raised e, w)
  of_date (some (ok instant)) w = until instant w

  abbrev pub of_number : Option Float → String → W → Result (Option ℕ) × W
  of_number (some seconds) value w = (of_seconds seconds, w)
  of_number none value w = of_date (net.parse_date value) w

  unfoldable pub parse_retry_after : Option String → W → Result (Option ℕ) × W
  parse_retry_after none w = (ok none, w)
  parse_retry_after (some value) w =
      if is_nil value then (ok none, w) else of_number (net.parse_float value) value w
