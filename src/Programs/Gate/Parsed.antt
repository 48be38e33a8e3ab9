-- ===== src/Programs/Gate/Parsed.antt =====
-- `parse_results` reads back the tallies of a summary line, whatever was printed before it.
use Prim.Native.Char.{Char, code}
use Prim.Native.String.{[], ◌∷◌, ◌++◌}
use text.Mathlib.TextLemmas.{nil-append, cons-append}
use intempt_python.Prelude.{List}
use intempt_python.Prelude.{[] as nil, ◌∷◌ as cons}
use intempt_python.Prelude.{
  ℕ, ◌<◌, String, true, false, Option, none, some, ◌≡◌, ◌∙◌, refl, ap, arith, if◌then◌else◌,
}
use intempt_python.Prelude.{◌==◌ as eq_ℕ}
use intempt_python.Python.Float.{pos}
use intempt_python.Python.Text.{is_space}
use intempt_python.Python.Value.{decimal_fuel, decimal}
use intempt_python.Programs.Gate.{
  leading, after_spaces, or_here, last_count, killed_mark, timeout_mark, survived_mark,
  suspicious_mark, parse_results,
}
use intempt_python.Programs.Gate.Digits.{
  leading-decimal_fuel, after_spaces-decimal_fuel, last_count-other, last_count-decimal_fuel,
  append-decimal_fuel,
}

space-append : (s : String) → " " ++ s ≡ " " ∷ s
space-append s = cons-append " " [] s ∙ ap (λ t. " " ∷ t) (nil-append s)

decimal-append : (n : ℕ) (s : String) → decimal (pos n) ++ s ≡ decimal_fuel n n s
unfolding decimal
decimal-append n s = append-decimal_fuel n n "" s ∙ ap (decimal_fuel n n) (nil-append s)

abbrev spaced : List (Char × ℕ) → String → String
spaced nil line = ""
spaced (cons e rest) line = " " ++ line

-- The tallies of a summary line, each after its mark, with spaces between them.
abbrev pub line_of : List (Char × ℕ) → String
line_of nil = ""
line_of (cons (mark, n) rest) =
    let more = line_of rest in mark ∷ (" " ++ (decimal (pos n) ++ spaced rest more))

-- What the line says of a mark.
abbrev count_of : ℕ → List (Char × ℕ) → Option ℕ
count_of mark nil = none
count_of mark (cons (m, n) rest) =
    or_here (count_of mark rest) (if eq_ℕ (code m) mark then some n else none)

leading-spaced :
    (n : ℕ) (rest : List (Char × ℕ)) (line : String) → leading n true (spaced rest line) ≡ some n
unfolding leading
leading-spaced n nil line = refl
leading-spaced n (cons e rest) line = rw (space-append line) refl

last_count-spaced :
    (mark : ℕ) (rest : List (Char × ℕ))
    → 57 < mark
    → last_count mark (spaced rest (line_of rest)) ≡ last_count mark (line_of rest)
last_count-spaced mark nil h = refl
last_count-spaced mark (cons e rest) h =
    ap (last_count mark) (space-append (line_of (cons e rest)))
    ∙ last_count-other mark " " (line_of (cons e rest)) (ground arith)

tally_text : (n : ℕ) (s : String) → " " ++ (decimal (pos n) ++ s) ≡ " " ∷ decimal_fuel n n s
tally_text n s = space-append (decimal (pos n) ++ s) ∙ ap (λ t. " " ∷ t) (decimal-append n s)

after_spaces-tally :
    (n : ℕ) (rest : List (Char × ℕ)) (line : String)
    → after_spaces (" " ∷ decimal_fuel n n (spaced rest line)) ≡ some n
unfolding after_spaces is_space
after_spaces-tally n rest line =
    after_spaces-decimal_fuel n n (spaced rest line)
    ∙ (leading-decimal_fuel n n false (spaced rest line) (omega arith) ∙ leading-spaced n rest line)

last_count-line_of :
    (mark : ℕ) (xs : List (Char × ℕ)) → 57 < mark → last_count mark (line_of xs) ≡ count_of mark xs
unfolding last_count
last_count-line_of mark nil h = refl
last_count-line_of mark (cons (m, n) rest) h =
    let u = spaced rest (line_of rest) in
    let rest_count : last_count mark (" " ∷ decimal_fuel n n u) ≡ count_of mark rest =
      last_count-other mark " " (decimal_fuel n n u) (ground arith)
      ∙ (last_count-decimal_fuel mark n n u h
          ∙ (last_count-spaced mark rest h ∙ last_count-line_of mark rest h)) in
    rw (tally_text n u, rest_count, after_spaces-tally n rest (line_of rest)) refl

last_count-cons :
    (mark n : ℕ) (c : Char) (s : String)
    → last_count mark s ≡ some n
    → last_count mark (c ∷ s) ≡ some n
unfolding last_count
last_count-cons mark n c s h = rw h refl

-- What a text ends with decides, if it has the mark.
last_count-append :
    (mark n : ℕ) (s t : String) → last_count mark t ≡ some n → last_count mark (s ++ t) ≡ some n
last_count-append mark n [] t h = rw (nil-append t) h
last_count-append mark n (c ∷ s) t h =
    rw (cons-append c s t) (last_count-cons mark n c (s ++ t) (last_count-append mark n s t h))

last_count-after :
    (mark n : ℕ) (before : String) (xs : List (Char × ℕ))
    → 57 < mark
    → count_of mark xs ≡ some n
    → last_count mark (before ++ line_of xs) ≡ some n
last_count-after mark n before xs h e =
    last_count-append mark n before (line_of xs) (last_count-line_of mark xs h ∙ e)

abbrev tallies : (killed no_tests timed_out suspicious survived skipped : ℕ) → List (Char × ℕ)
tallies killed no_tests timed_out suspicious survived skipped =
    cons ("🎉", killed)
      (cons ("🫥", no_tests)
        (cons ("⏰", timed_out)
          (cons ("🤔", suspicious) (cons ("🙁", survived) (cons ("🔇", skipped) nil)))))

-- The summary line of mutmut, for its six tallies.
abbrev pub summary_line : (killed no_tests timed_out suspicious survived skipped : ℕ) → String
summary_line killed no_tests timed_out suspicious survived skipped =
    line_of (tallies killed no_tests timed_out suspicious survived skipped)

-- `parse_results` reads the tallies of killed, timed-out, suspicious and surviving mutants back from
-- the summary line of mutmut, whatever their values are and whatever was printed before the line.
pub parse_results-summary_line :
    (before : String) (killed no_tests timed_out suspicious survived skipped : ℕ)
    → parse_results (before ++ summary_line killed no_tests timed_out suspicious survived skipped)
      ≡ record {
        killed = killed;
        timed_out = timed_out;
        survived = survived;
        suspicious = suspicious;
      }
unfolding parse_results
parse_results-summary_line before killed no_tests timed_out suspicious survived skipped =
    let xs = tallies killed no_tests timed_out suspicious survived skipped in
    rw
      (
        last_count-after killed_mark killed before xs (omega arith) refl,
        last_count-after timeout_mark timed_out before xs (omega arith) refl,
        last_count-after survived_mark survived before xs (omega arith) refl,
        last_count-after suspicious_mark suspicious before xs (omega arith) refl,
      )
      refl
