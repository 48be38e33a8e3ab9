-- ===== src/Programs/Process.antt =====
-- What examples/ and scripts/ share: a process that holds a client, and calls on it.
use intempt_python.Prelude.{ℕ, String, Option, none, some, List, [], ◌∷◌, if◌then◌else◌}
use text.Mathlib.Text.{◌==◌}
use intempt_python.Errors.{Error, other_error}
use intempt_python.Config.Resolve.{resolve_config}
use intempt_python.Config.Batch.{int_of}
use intempt_python.Config.Record.{ResolvedConfig}
use intempt_python.Python.Float.{ℤ, pos, negsuc}
use intempt_python.Python.Result.{Result, ok, raised}
use intempt_python.Python.Text.{is_nil}
use intempt_python.Python.Value.{Value, null, str, Options}
use intempt_python.Client.Session.{Outside, Session, Client, start}
use intempt_python.Client.Writes.{Write, write}

-- `os.environ`
abbrev pub Environ : Type 0
Environ = List (String × String)

-- `os.environ.get(name)`
abbrev pub getenv : String → Environ → Option String
getenv name [] = none
getenv name ((k, v) ∷ rest) = let found = getenv name rest in if k == name then some v else found

-- `os.environ.get(name, "")`, by which a variable that is not set and one that is empty are one.
abbrev pub text_or_empty : Option String → String
text_or_empty none = ""
text_or_empty (some s) = s

-- `os.environ.get(name) or default`
abbrev pub or_text : String → Option String → String
or_text default none = default
or_text default (some s) = if is_nil s then default else s

-- `os.environ.get(name)` as the value of an option.
abbrev pub text_value : Option String → Value
text_value none = null
text_value (some s) = str s

-- The names that are not set, or are empty: `[name for name in names if not os.environ.get(name)]`.
abbrev pub missing_of : List String → Environ → List String
missing_of [] env = []
missing_of (name ∷ names) env =
    let rest = missing_of names env in
    if is_nil (text_or_empty (getenv name env)) then name ∷ rest else rest

-- How a process ends: with an exit code, or by an exception that is not caught.
pub data Exit : Type 0 where
  code : ℕ → Exit
  escapes : Error → Exit

-- A process that has a client: the world outside, and what it has printed, the latest first.
pub record Process (L W : Type 0) : Type 0 where
  pub client : Client
  pub world : W
  pub printed : List L

-- A statement on a process. `none` comes only from the client's buffer.
abbrev pub Action : (L W A : Type 0) → Type 0
Action L W A = Process L W → Option (Result A × Process L W)

module _ {L W : Type 0} where
  abbrev pub return : {A : Type 0} → A → Action L W A
  return a p = some (ok a, p)

  -- The statements after one that has run.
  abbrev pub resume :
      {A B : Type 0}
      → (A → Action L W B)
      → Option (Result A × Process L W)
      → Option (Result B × Process L W)
  resume next none = none
  resume next (some (raised e, p)) = some (raised e, p)
  resume next (some (ok a, p)) = next a p

  infixl 5 ◌>>=◌ ◌>>◌
  abbrev pub ◌>>=◌ : {A B : Type 0} → Action L W A → (A → Action L W B) → Action L W B
  (m >>= next) p = resume next (m p)

  abbrev pub ◌>>◌ : {B : Type 0} → Action L W (Unit {0}) → Action L W B → Action L W B
  m >> next = m >>= λ _. next

  abbrev pub print : L → Action L W (Unit {0})
  print line p = some (ok tt, record p { printed = line ∷ p.printed })

  abbrev pub after_write :
      Process L W
      → Option (Result (Unit {0}) × (Client × W))
      → Option (Result (Unit {0}) × Process L W)
  after_write p none = none
  after_write p (some (r, (c, w))) = some (r, record p { client = c; world = w })

  abbrev pub after_read :
      {A : Type 0} → Process L W → Result A × Session × W → Option (Result A × Process L W)
  after_read p (r, s, w) =
      some (r, record p { client = record p.client { session = s }; world = w })

  -- A write of the client, and a read.
  abbrev pub call : Outside W → Write → Action L W (Unit {0})
  call out w p = after_write p (write out w p.client p.world)

  -- Writes one after the other, up to the first that raises.
  unfoldable pub call_all : Outside W → List Write → Action L W (Unit {0})
  call_all out [] = return tt
  call_all out (w ∷ ws) = call out w >> call_all out ws

  abbrev pub read : {A : Type 0} → (Session → W → Result A × Session × W) → Action L W A
  read f p = after_read p (f p.client.session p.world)

-- `max_request_events` as `start` takes it; `resolve_config` lets through nothing but an integer of at
-- least 1.
abbrev pub limit_from : Option ℤ → Result ℕ
limit_from none = raised (other_error "TypeError")
limit_from (some (pos n)) = ok n
limit_from (some (negsuc n)) = raised (other_error "TypeError")

abbrev pub limit_of : Value → Result ℕ
limit_of v = limit_from (int_of v)

abbrev pub limited : ResolvedConfig → Result ℕ → Result Client
limited config (raised e) = raised e
limited config (ok n) = ok (start config n)

abbrev pub started : Result ResolvedConfig → Result Client
started (raised e) = raised e
started (ok config) = limited config (limit_of config.max_request_events)

-- `Intempt(**options)`, where `default_logger` is what `logging.getLogger` returns.
unfoldable pub open_client : (Value → String) → Value → Options → Result Client
open_client show default_logger options = started (resolve_config show default_logger options)
