-- ===== src/Config/Host.antt =====
-- intempt/_config.py: `_split_host`, and the `int(...)` of a text that it relies on.
use Prim.Native.Char.{Char, code}
use Prim.Native.String.{[], ◌∷◌, ◌++◌}
use intempt_python.Prelude.{
  ℕ, ◌+◌, ◌-◌, ◌*◌, ◌≤◌, String, Bool, true, false, ◌&&◌, ◌||◌, Option, none, some, ◌≡◌, inl, inr,
  refl, arith, if-cases, Bool-cases, leb, ltb, if◌then◌else◌,
}
use intempt_python.Prelude.{◌==◌ as eq_ℕ}
use intempt_python.Errors.{config_error}
use intempt_python.Python.Float.{ℤ, pos, negsuc, signed}
use intempt_python.Python.Text.{
  is_nil, is_blank, is_space, strip, strip_left, strip_right, partition, contains,
}
use intempt_python.Python.Value.{Value, str}
use intempt_python.Python.Result.{Result, ok, raised, Ensures}

abbrev pub is_digit : Char → Bool
is_digit c = leb 48 (code c) && leb (code c) 57

-- The digits of `int(text)`: ASCII digits, and single underscores between them. `after_digit` says
-- what stands before, `acc` is the value so far.
unfoldable pub parse_digits : ℕ → Bool → String → Option ℕ
parse_digits acc after_digit [] = if after_digit then some acc else none
parse_digits acc after_digit (c ∷ s) =
    let with_digit = parse_digits (acc * 10 + (code c - 48)) true s in
    let after_underscore = parse_digits acc false s in
    if is_digit c
    then with_digit
    else if eq_ℕ (code c) 95 && after_digit
    then after_underscore
    else none

abbrev negate : Option ℕ → Option ℤ
negate none = none
negate (some n) = some (signed true n)

abbrev keep : Option ℕ → Option ℤ
keep none = none
keep (some n) = some (pos n)

-- `int(text)`, `none` for the `ValueError`
unfoldable pub parse_signed : String → Option ℤ
unfolding parse_digits
parse_signed [] = none
parse_signed (c ∷ s) =
    if eq_ℕ (code c) 45
    then negate (parse_digits 0 false s)
    else if eq_ℕ (code c) 43
    then keep (parse_digits 0 false s)
    else keep (parse_digits 0 false (c ∷ s))

unfoldable pub parse_int : String → Option ℤ
unfolding parse_signed
parse_int s = parse_signed (strip s)

-- `port <= 0 or port > 65535`
abbrev port_range : ℤ → Option ℕ
port_range (negsuc n) = none
port_range (pos n) = if eq_ℕ n 0 || ltb 65535 n then none else some n

abbrev valid_port : Option ℤ → Option ℕ
valid_port none = none
valid_port (some i) = port_range i

abbrev with_port : String → String → Option ℕ → Result (String × Option ℕ)
with_port host hostname none = raised (config_error ("invalid port in host: " ++ host))
with_port host hostname (some port) = ok (hostname, some port)

unfoldable pub split_host : Value → Result (String × Option ℕ)
unfolding parse_int
split_host (str host) =
    let (hostname, raw_port) = partition ":" (strip host) in
    if is_blank host || is_nil hostname
    then raised (config_error "host must not be empty")
    else if is_nil raw_port
    then ok (hostname, none)
    else with_port host hostname (valid_port (parse_int raw_port))
split_host v = raised (config_error "host must not be empty")

-- A port that was given lies between 1 and 65535.
abbrev pub PortInRange : Option ℕ → Type 0
PortInRange none = Unit
PortInRange (some port) = (1 ≤ port) × (port ≤ 65535)

-- A host with no colon in it, and a port in range.
pub record IsHost (r : String × Option ℕ) : Type 0 where
  pub named : is_nil r.0 ≡ false
  pub bare : contains ":" r.0 ≡ false
  pub port : PortInRange r.1

contains-partition : (sep : Char) (s : String) → contains sep (partition sep s).0 ≡ false
unfolding contains partition
contains-partition sep [] = refl
contains-partition sep (c ∷ s) = elim (Bool-cases (eq_ℕ (code c) (code sep))) [
  | inl hit ↦ rw hit
  | inr miss ↦ rw miss (rw miss (contains-partition sep s))
]

with_port-IsHost :
    (host hostname : String) (port : Option ℤ)
    → is_nil hostname ≡ false
    → contains ":" hostname ≡ false
    → Ensures IsHost (with_port host hostname (valid_port port))
with_port-IsHost host hostname port n b = ground arith

-- Whatever `_split_host` accepts, the host is not empty and holds no colon, and the port, if there
-- is one, lies between 1 and 65535.
pub split_host-IsHost : (v : Value) → Ensures IsHost (split_host v)
unfolding split_host
split_host-IsHost (str host) =
    let (hostname, raw_port) = partition ":" (strip host) in
    let bare = contains-partition ":" (strip host) in
    if-cases (Ensures IsHost) (is_blank host || is_nil hostname) _ _ (λ h. tt)
      (λ h.
        if-cases (Ensures IsHost) (is_nil raw_port) _ _
          (λ k. record { named = ground arith; bare = bare; port = tt })
          (λ k. with_port-IsHost host hostname (parse_int raw_port) (ground arith) bare))
split_host-IsHost _ = tt

port_given : split_host (str " api.test:8443 ") ≡ ok ("api.test", some 8443)
unfolding split_host strip strip_left strip_right is_space is_blank partition parse_digits
port_given = refl
