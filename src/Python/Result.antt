-- ===== src/Python/Result.antt =====
-- A function that may raise returns a `Result`.
use intempt_python.Prelude.{Bool, true, false, ◌≡◌, refl}
use intempt_python.Errors.{Error}

pub data Result {ℓ} (A : Type ℓ) : Type ℓ where
  ok : A → Result A
  raised : Error → Result A

infixl 5 ◌>>=◌ ◌>>◌
abbrev pub ◌>>=◌ {ℓ κ} : {A : Type ℓ} {B : Type κ} → Result A → (A → Result B) → Result B
ok a >>= f = f a
raised e >>= f = raised e

abbrev pub ◌>>◌ {ℓ} : {B : Type ℓ} → Result (Unit {0}) → Result B → Result B
m >> k = m >>= λ _. k

-- `if test: raise error`
abbrev pub raise_if : Bool → Error → Result (Unit {0})
raise_if true e = raised e
raise_if false e = ok tt

-- What a result that was returned satisfies.
abbrev pub Ensures {ℓ} : {A : Type ℓ} → (A → Type 0) → Result A → Type 0
Ensures P (ok a) = P a
Ensures P (raised e) = Unit

-- The rules for a postcondition of a chain.
pub bind-Ensures {ℓ κ} :
    {A : Type ℓ} {B : Type κ} (Q : B → Type 0) (m : Result A) (f : A → Result B)
    → ((a : A) → m ≡ ok a → Ensures Q (f a))
    → Ensures Q (m >>= f)
bind-Ensures Q (ok a) f k = k a refl
bind-Ensures Q (raised e) f k = tt

pub Ensures-ok {ℓ} :
    {A : Type ℓ} (P : A → Type 0) (m : Result A) (a : A) → Ensures P m → m ≡ ok a → P a
Ensures-ok P m a p e = rw e at p

pub raise_if-Ensures {ℓ} :
    {B : Type ℓ} (Q : B → Type 0) (test : Bool) (e : Error) (rest : Result B)
    → (test ≡ false → Ensures Q rest)
    → Ensures Q (raise_if test e >> rest)
raise_if-Ensures Q true e rest k = tt
raise_if-Ensures Q false e rest k = k refl

-- The weaker postcondition holds of what was returned.
pub Ensures-weaken {ℓ} :
    {A : Type ℓ} (P Q : A → Type 0) (m : Result A)
    → ((a : A) → P a → Q a)
    → Ensures P m
    → Ensures Q m
Ensures-weaken P Q (ok a) imp h = imp a h
Ensures-weaken P Q (raised e) imp h = tt

-- The rule for a chain whose first part has a postcondition of its own.
pub bind-Ensured {ℓ κ} :
    {A : Type ℓ} {B : Type κ} (P : A → Type 0) (Q : B → Type 0) (m : Result A) (f : A → Result B)
    → Ensures P m
    → ((a : A) → P a → Ensures Q (f a))
    → Ensures Q (m >>= f)
bind-Ensured P Q (ok a) f p k = k a p
bind-Ensured P Q (raised e) f p k = tt
