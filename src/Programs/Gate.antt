-- ===== src/Programs/Gate.antt =====
-- scripts/mutation_gate.py: the tallies of mutmut, and the decision on the score.
pub mod Digits
pub mod Parsed
mod Tests
use Prim.Native.Char.{Char, code}
use Prim.Native.String.{[], ◌∷◌}
use intempt_python.Prelude.{
  ℕ, zero, suc, ◌+◌, ◌-◌, ◌*◌, ◌/◌, ◌^◌, String, Bool, true, false, ◌&&◌, not, Option, none, some,
  ltb, if◌then◌else◌,
}
use intempt_python.Prelude.{◌==◌ as eq_ℕ}
use intempt_python.Config.Host.{is_digit}
use intempt_python.Python.Float.{
  ℤ, pos, negsuc, Float, nan, infinity, neg_infinity, finite, of_ratio, scale, signed, abs,
}
use intempt_python.Python.Result.{Result, ok, raised, ◌>>=◌}
use intempt_python.Python.Text.{is_space}
use intempt_python.Util.{int_of_float}

pub record Counts : Type 0 where
  pub killed : ℕ
  pub timed_out : ℕ
  pub survived : ℕ
  pub suspicious : ℕ

-- `(\d+)` at the front of a text, as a number. `seen` says whether a digit stands before.
unfoldable pub leading : ℕ → Bool → String → Option ℕ
leading acc seen [] = if seen then some acc else none
leading acc seen (c ∷ s) =
    let more = leading (acc * 10 + (code c - 48)) true s in
    if is_digit c then more else if seen then some acc else none

-- `\s*(\d+)` at the front of a text.
unfoldable pub after_spaces : String → Option ℕ
after_spaces [] = none
after_spaces (c ∷ s) =
    let rest = after_spaces s in if is_space c then rest else leading 0 false (c ∷ s)

abbrev pub or_here : Option ℕ → Option ℕ → Option ℕ
or_here (some n) here = some n
or_here none here = here

-- `re.findall(mark + r"\s*(\d+)", text)[-1]`, if there is one: no match holds the mark of another.
unfoldable pub last_count : ℕ → String → Option ℕ
last_count mark [] = none
last_count mark (c ∷ s) =
    or_here (last_count mark s) (if eq_ℕ (code c) mark then after_spaces s else none)

abbrev or_zero : Option ℕ → ℕ
or_zero none = 0
or_zero (some n) = n

-- The code points of 🎉, ⏰, 🙁 and 🤔.
abbrev pub killed_mark : ℕ
killed_mark = 127881

abbrev pub timeout_mark : ℕ
timeout_mark = 9200

abbrev pub survived_mark : ℕ
survived_mark = 128577

abbrev pub suspicious_mark : ℕ
suspicious_mark = 129300

unfoldable pub parse_results : String → Counts
parse_results text = record {
  killed = or_zero (last_count killed_mark text);
  timed_out = or_zero (last_count timeout_mark text);
  survived = or_zero (last_count survived_mark text);
  suspicious = or_zero (last_count suspicious_mark text);
}

-- `x < y`
unfoldable pub less : Float → Float → Bool
less nan y = false
less x nan = false
less neg_infinity neg_infinity = false
less neg_infinity y = true
less x neg_infinity = false
less infinity y = false
less x infinity = true
less (finite false n k) (finite false m j) = ltb (n * 2 ^ j) (m * 2 ^ k)
less (finite false n k) (finite true m j) = false
less (finite true n k) (finite false m j) = not (eq_ℕ n 0 && eq_ℕ m 0)
less (finite true n k) (finite true m j) = ltb (m * 2 ^ k) (n * 2 ^ j)

-- `-(-i // 100)`
abbrev pub ceil_percent : ℤ → ℤ
ceil_percent (pos n) = pos ((n + 99) / 100)
ceil_percent (negsuc n) = signed true (suc n / 100)

-- How the gate ends: its exit code, with what it writes to mutation-summary.json and the number of
-- kills that it prints as needed.
pub record Verdict : Type 0 where
  pub exit : ℕ
  pub score : Float
  pub killed : ℕ
  pub evaluated : ℕ
  pub needed : ℤ

pub data Decision : Type 0 where
  nothing_evaluated : Decision
  scored : Verdict → Decision

abbrev pub exit_of : Decision → ℕ
exit_of nothing_evaluated = 1
exit_of (scored v) = v.exit

-- `main` on the tallies; a threshold that is no finite number makes `int` raise.
unfoldable pub decide : Float → ℕ → ℕ → Result Decision
decide threshold killed zero = ok nothing_evaluated
decide threshold killed evaluated =
    let score = scale 100 (of_ratio false killed evaluated) in
    int_of_float (scale evaluated threshold) >>= λ i. ok (
      scored (record {
        exit = if less score threshold then 1 else 0;
        score = score;
        killed = killed;
        evaluated = evaluated;
        needed = ceil_percent i;
      }))

-- `main`, from the output of mutmut.
unfoldable pub gate : Float → String → Result Decision
gate threshold output =
    let counts = parse_results output in
    let killed = counts.killed + counts.timed_out in
    decide threshold killed (killed + counts.survived)
