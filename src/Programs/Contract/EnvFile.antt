-- ===== src/Programs/Contract/EnvFile.antt =====
-- scripts/e2e.py: `load_env_file`.
use Prim.Native.Char.{Char, code}
use Prim.Native.String.{[], ◌∷◌}
use intempt_python.Prelude.{
  ℕ, ◌+◌, String, Bool, true, false, ◌&&◌, ◌||◌, not, Option, none, some, List, ◌++◌, ◌≡◌, arith,
  if-cases, if◌then◌else◌,
}
use intempt_python.Prelude.{[] as nil, ◌∷◌ as cons}
use intempt_python.Prelude.{◌==◌ as eq_ℕ}
use text.Mathlib.Text.{◌==◌}
use intempt_python.Python.Text.{is_nil, strip, partition, contains}
use intempt_python.Programs.Process.{Environ, getenv}

abbrev is_quote : Char → Bool
is_quote c = eq_ℕ (code c) 39 || eq_ℕ (code c) 34

unfoldable pub strip_quotes_left : String → String
strip_quotes_left [] = []
strip_quotes_left (c ∷ s) = if is_quote c then strip_quotes_left s else c ∷ s

unfoldable pub strip_quotes_right : String → String
strip_quotes_right [] = []
strip_quotes_right (c ∷ s) =
    let rest = strip_quotes_right s in if is_quote c && is_nil rest then [] else c ∷ rest

-- `s.strip("'\"")`
unfoldable pub strip_quotes : String → String
strip_quotes s = strip_quotes_right (strip_quotes_left s)

abbrev starts_with_hash : String → Bool
starts_with_hash [] = false
starts_with_hash (c ∷ s) = eq_ℕ (code c) 35

-- `not line or line.startswith("#") or "=" not in line`
abbrev is_skipped : String → Bool
is_skipped line = is_nil line || (starts_with_hash line || not (contains "=" line))

abbrev pub is_set : Option String → Bool
is_set none = false
is_set (some s) = true

-- `if key and key not in os.environ:`, with the count of what was loaded.
unfoldable pub assign : String → String → ℕ × Environ → ℕ × Environ
assign key value (loaded, env) =
    if not (is_nil key) && not (is_set (getenv key env))
    then (loaded + 1, env ++ cons (key, value) nil)
    else (loaded, env)

-- One turn of the loop.
unfoldable pub load_line : String → ℕ × Environ → ℕ × Environ
load_line raw state =
    let line = strip raw in
    let (key, value) = partition "=" line in
    if is_skipped line then state else assign (strip key) (strip_quotes (strip value)) state

unfoldable pub load_lines : List String → ℕ × Environ → ℕ × Environ
load_lines nil state = state
load_lines (cons raw lines) state = load_lines lines (load_line raw state)

-- `load_env_file`, from the lines of the file if there is one.
unfoldable pub load_env_file : Option (List String) → Environ → ℕ × Environ
load_env_file none env = (0, env)
load_env_file (some lines) env = load_lines lines (0, env)

-- What is set in the first is set to the same value in the second.
abbrev pub Extends : Environ → Environ → Type 0
Extends before after =
    (key value : String) → getenv key before ≡ some value → getenv key after ≡ some value

getenv-append :
    (key value : String) (env more : Environ)
    → getenv key env ≡ some value
    → getenv key (env ++ more) ≡ some value
getenv-append key value nil more h = ground arith
getenv-append key value (cons (k, v) rest) more h =
    if-cases
      (λ o. o ≡ some value → (if k == key then some v else getenv key (rest ++ more)) ≡ some value)
      (k == key) (some v) (getenv key rest) (λ same e. rw same e)
      (λ other e. rw other (getenv-append key value rest more e)) h

assign-Extends :
    (key value : String) (state : ℕ × Environ) → Extends state.1 (assign key value state).1
unfolding assign
assign-Extends key value (loaded, env) k v h =
    if-cases (λ (s : ℕ × Environ). getenv k s.1 ≡ some v)
      (not (is_nil key) && not (is_set (getenv key env))) _ _
      (λ _. getenv-append k v env (cons (key, value) nil) h) (λ _. h)

load_line-Extends : (raw : String) (state : ℕ × Environ) → Extends state.1 (load_line raw state).1
unfolding load_line
load_line-Extends raw state k v h =
    if-cases (λ (s : ℕ × Environ). getenv k s.1 ≡ some v) (is_skipped (strip raw)) _ _ (λ _. h)
      (λ _. assign-Extends _ _ state k v h)

load_lines-Extends :
    (lines : List String) (state : ℕ × Environ) → Extends state.1 (load_lines lines state).1
unfolding load_lines
load_lines-Extends nil state k v h = h
load_lines-Extends (cons raw lines) state k v h =
    load_lines-Extends lines (load_line raw state) k v (load_line-Extends raw state k v h)

-- The file sets no variable that was set before.
pub load_env_file-Extends :
    (file : Option (List String)) (env : Environ) → Extends env (load_env_file file env).1
unfolding load_env_file
load_env_file-Extends none env k v h = h
load_env_file-Extends (some lines) env k v h = load_lines-Extends lines (0, env) k v h
