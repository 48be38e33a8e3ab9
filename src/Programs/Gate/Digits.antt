-- ===== src/Programs/Gate/Digits.antt =====
-- How the patterns of scripts/mutation_gate.py read decimal digits.
use Prim.Native.Char.{Char, code}
use Prim.Native.String.{◌∷◌, ◌++◌}
use text.Mathlib.TextLemmas.{cons-append}
use intempt_python.Prelude.{
  inl, inr, Bool-cases, ℕ, zero, suc, ◌+◌, ◌*◌, ◌/◌, ◌%◌, ◌≤◌, ◌<◌, String, Bool, true, false,
  Option, none, some, ◌≡◌, ◌∙◌, refl, ap, arith, if-cases,
}
use intempt_python.Prelude.{◌==◌ as eq_ℕ}
use intempt_python.Python.Text.{is_space}
use intempt_python.Python.Value.{digit, decimal_fuel}
use intempt_python.Programs.Gate.{leading, after_spaces, or_here, last_count}

-- A decimal digit is read as its number.
leading-digit :
    (d acc : ℕ) (seen : Bool) (rest : String)
    → d < 10
    → leading acc seen (digit d ∷ rest) ≡ leading (acc * 10 + d) true rest
unfolding leading digit
leading-digit zero acc seen rest h = ap (λ n. leading n true rest) (omega arith)
leading-digit (suc zero) acc seen rest h = ap (λ n. leading n true rest) (omega arith)
leading-digit (suc (suc zero)) acc seen rest h = ap (λ n. leading n true rest) (omega arith)
leading-digit (suc (suc (suc zero))) acc seen rest h = ap (λ n. leading n true rest) (omega arith)
leading-digit (suc (suc (suc (suc zero)))) acc seen rest h =
    ap (λ n. leading n true rest) (omega arith)
leading-digit (suc (suc (suc (suc (suc zero))))) acc seen rest h =
    ap (λ n. leading n true rest) (omega arith)
leading-digit (suc (suc (suc (suc (suc (suc zero)))))) acc seen rest h =
    ap (λ n. leading n true rest) (omega arith)
leading-digit (suc (suc (suc (suc (suc (suc (suc zero))))))) acc seen rest h =
    ap (λ n. leading n true rest) (omega arith)
leading-digit (suc (suc (suc (suc (suc (suc (suc (suc zero)))))))) acc seen rest h =
    ap (λ n. leading n true rest) (omega arith)
leading-digit (suc (suc (suc (suc (suc (suc (suc (suc (suc zero))))))))) acc seen rest h =
    ap (λ n. leading n true rest) (omega arith)
leading-digit (suc (suc (suc (suc (suc (suc (suc (suc (suc (suc d)))))))))) acc seen rest h =
    absurd (omega arith)

digit_code : (d : ℕ) → (48 ≤ code (digit d)) × (code (digit d) ≤ 57)
unfolding digit
digit_code zero = (omega arith, omega arith)
digit_code (suc zero) = (omega arith, omega arith)
digit_code (suc (suc zero)) = (omega arith, omega arith)
digit_code (suc (suc (suc zero))) = (omega arith, omega arith)
digit_code (suc (suc (suc (suc zero)))) = (omega arith, omega arith)
digit_code (suc (suc (suc (suc (suc zero))))) = (omega arith, omega arith)
digit_code (suc (suc (suc (suc (suc (suc zero)))))) = (omega arith, omega arith)
digit_code (suc (suc (suc (suc (suc (suc (suc zero))))))) = (omega arith, omega arith)
digit_code (suc (suc (suc (suc (suc (suc (suc (suc zero)))))))) = (omega arith, omega arith)
digit_code (suc (suc (suc (suc (suc (suc (suc (suc (suc d))))))))) = (omega arith, omega arith)

pub leading-decimal_fuel :
    (f n : ℕ) (seen : Bool) (rest : String)
    → n ≤ f
    → leading 0 seen (decimal_fuel f n rest) ≡ leading n true rest
unfolding decimal_fuel
leading-decimal_fuel zero n seen rest h =
    leading-digit (n % 10) 0 seen rest (omega arith) ∙ ap (λ m. leading m true rest) (omega arith)
leading-decimal_fuel (suc f) n seen rest h =
    if-cases (λ s. leading 0 seen s ≡ leading n true rest) (eq_ℕ (n / 10) 0) _ _
      (λ small.
        leading-digit (n % 10) 0 seen rest (omega arith)
        ∙ ap (λ m. leading m true rest) (ground arith))
      (λ large.
        leading-decimal_fuel f (n / 10) seen (digit (n % 10) ∷ rest) (ground arith)
        ∙ (leading-digit (n % 10) (n / 10) true rest (omega arith)
            ∙ ap (λ m. leading m true rest) (omega arith)))

after_spaces-digit :
    (d : ℕ) (rest : String) → after_spaces (digit d ∷ rest) ≡ leading 0 false (digit d ∷ rest)
unfolding after_spaces
after_spaces-digit d rest =
    let (low, high) = digit_code d in
    if-cases (λ o. o ≡ leading 0 false (digit d ∷ rest)) (is_space (digit d)) _ _
      (λ space. absurd (unfold is_space in ground arith)) (λ _. refl)

pub after_spaces-decimal_fuel :
    (f n : ℕ) (rest : String)
    → after_spaces (decimal_fuel f n rest) ≡ leading 0 false (decimal_fuel f n rest)
unfolding decimal_fuel
after_spaces-decimal_fuel zero n rest = after_spaces-digit (n % 10) rest
after_spaces-decimal_fuel (suc f) n rest =
    if-cases (λ s. after_spaces s ≡ leading 0 false s) (eq_ℕ (n / 10) 0) _ _
      (λ _. after_spaces-digit (n % 10) rest)
      (λ _. after_spaces-decimal_fuel f (n / 10) (digit (n % 10) ∷ rest))

or_here-none : (o : Option ℕ) → or_here o none ≡ o
or_here-none none = refl
or_here-none (some n) = refl

-- A character that is not the mark is passed over.
pub last_count-other :
    (mark : ℕ) (c : Char) (s : String)
    → eq_ℕ (code c) mark ≡ false
    → last_count mark (c ∷ s) ≡ last_count mark s
unfolding last_count
last_count-other mark c s h = rw h (or_here-none (last_count mark s))

pub last_count-decimal_fuel :
    (mark f n : ℕ) (rest : String)
    → 57 < mark
    → last_count mark (decimal_fuel f n rest) ≡ last_count mark rest
unfolding decimal_fuel
last_count-decimal_fuel mark zero n rest h =
    last_count-other mark (digit (n % 10)) rest (ground (arith, digit_code (n % 10)))
last_count-decimal_fuel mark (suc f) n rest h =
    let last = last_count-other mark (digit (n % 10)) rest (ground (arith, digit_code (n % 10))) in
    if-cases (λ s. last_count mark s ≡ last_count mark rest) (eq_ℕ (n / 10) 0) _ _ (λ _. last)
      (λ _. last_count-decimal_fuel mark f (n / 10) (digit (n % 10) ∷ rest) h ∙ last)

pub append-decimal_fuel :
    (f n : ℕ) (s t : String) → decimal_fuel f n s ++ t ≡ decimal_fuel f n (s ++ t)
unfolding decimal_fuel
append-decimal_fuel zero n s t = cons-append (digit (n % 10)) s t
append-decimal_fuel (suc f) n s t =
    let c = digit (n % 10) in
    elim (Bool-cases (eq_ℕ (n / 10) 0)) [
      | inl small ↦ rw small (cons-append c s t)
      | inr large ↦ rw large (
          append-decimal_fuel f (n / 10) (c ∷ s) t
          ∙ ap (decimal_fuel f (n / 10)) (cons-append c s t))
    ]
