-- ===== src/Programs/Keeps.antt =====
-- What every program may rely on: a new client is usable, and the statements keep it so.
use intempt_python.Prelude.{
  ℕ, zero, suc, ◌≤◌, String, true, false, not, Option, none, some, List, [], ◌∷◌, ◌≡◌, ◌∙◌, refl,
  arith, Returns,
}
use intempt_python.Config.Batch.{HasIntegerSizes, HasValid, int_of, below_one}
use intempt_python.Config.Record.{ResolvedConfig}
use intempt_python.Config.Resolve.Checked.{IsResolved, resolve_config-IsResolved}
use intempt_python.Buffer.Valid.{IsValid, new-IsValid}
use intempt_python.Buffer.State.{new, close_drain_budget}
use intempt_python.Config.Options.{BatchOptions}
use intempt_python.Python.Float.{ℤ, pos, negsuc}
use intempt_python.Python.Result.{Result, ok, raised, Ensures}
use intempt_python.Python.Value.{Value, Options, get}
use intempt_python.Client.Session.{Outside, Session, Client, start}
use intempt_python.Client.Shutdown.{IfBuffered}
use intempt_python.Client.Usable.{IsUsable, Usable}
use intempt_python.Client.Usable.Writes.{write-Usable}
use intempt_python.Client.Writes.{Write, write}
use intempt_python.Programs.Process.{
  Process, Action, resume, print, after_write, call, call_all, read, limited, limit_from, started,
  open_client, ◌>>=◌,
}

buffer-IsValid :
    (o : Option BatchOptions) (n : ℕ)
    → HasValid o
    → 1 ≤ n
    → IfBuffered IsValid (elim o [ none ↦ none | some o' ↦ some (new o' n close_drain_budget) ])
buffer-IsValid none n valid h = tt
buffer-IsValid (some o) n valid h = new-IsValid o n close_drain_budget valid h

start-IsUsable :
    (config : ResolvedConfig) (n : ℕ) → HasValid config.batch → 1 ≤ n → IsUsable (start config n)
unfolding start
start-IsUsable config n valid h = record {
  live = refl;
  valid = buffer-IsValid config.batch n valid h;
}

-- `is_count`, of what `int_of` has read.
abbrev IsCounted : Option ℤ → Type 0
IsCounted none = ⊥
IsCounted (some i) = below_one i ≡ false

counted : (o : Option ℤ) → elim o [ none ↦ false | some i ↦ not (below_one i) ] ≡ true → IsCounted o
counted none h = ground arith
counted (some i) h = ground arith

limited-IsUsable :
    (config : ResolvedConfig) (i : Option ℤ)
    → HasValid config.batch
    → IsCounted i
    → Ensures IsUsable (limited config (limit_from i))
limited-IsUsable config none valid h = absurd h
limited-IsUsable config (some (pos zero)) valid h = absurd (ground arith)
limited-IsUsable config (some (pos (suc n))) valid h =
    start-IsUsable config (suc n) valid (omega arith)
limited-IsUsable config (some (negsuc n)) valid h = tt

started-IsUsable : (m : Result ResolvedConfig) → Ensures IsResolved m → Ensures IsUsable (started m)
started-IsUsable (raised e) h = tt
started-IsUsable (ok config) h =
    limited-IsUsable config (int_of config.max_request_events) h.batch
      (counted (int_of config.max_request_events) h.max_request_events)

-- A client that was constructed is usable, if a `BatchOptions` among the options was constructed too.
pub open_client-IsUsable :
    (show : Value → String) (default_logger : Value) (options : Options)
    → HasIntegerSizes (get "batch" options)
    → Ensures IsUsable (open_client show default_logger options)
unfolding open_client
open_client-IsUsable show default_logger options h =
    started-IsUsable _ (resolve_config-IsResolved show default_logger options h)

module _ {L W : Type 0} where
  abbrev pub StaysUsable : {A : Type 0} → Option (Result A × Process L W) → Type 0
  StaysUsable = Returns (λ (r, p). IsUsable p.client)

  -- A statement that ends, whatever the outside does, and leaves the client usable.
  abbrev pub Keeps : {A : Type 0} → Action L W A → Type 0
  Keeps m = (p : Process L W) → IsUsable p.client → StaysUsable (m p)

  resume-StaysUsable :
      {A B : Type 0} (next : A → Action L W B) (o : Option (Result A × Process L W))
      → ((a : A) → Keeps (next a))
      → StaysUsable o
      → StaysUsable (resume next o)
  resume-StaysUsable next none k h = h
  resume-StaysUsable next (some (raised e, p)) k h = h
  resume-StaysUsable next (some (ok a, p)) k h = k a p h

  pub bind-Keeps :
      {A B : Type 0} (m : Action L W A) (next : A → Action L W B)
      → Keeps m
      → ((a : A) → Keeps (next a))
      → Keeps (m >>= next)
  bind-Keeps m next h k p u = resume-StaysUsable next (m p) k (h p u)

  pub print-Keeps : (line : L) → Keeps (print line)
  print-Keeps line p u = record { live = u.live; valid = u.valid }

  after_write-StaysUsable :
      (out : Outside W) (p : Process L W) (o : Option (Result (Unit {0}) × (Client × W)))
      → Usable out o
      → StaysUsable (after_write p o)
  after_write-StaysUsable out p none h = h
  after_write-StaysUsable out p (some (r, (c, w))) h = h

  pub call-Keeps : (out : Outside W) (w : Write) → Keeps (call out w)
  call-Keeps out w p u =
      after_write-StaysUsable out p (write out w p.client p.world)
        (write-Usable out p.client u w p.world)

  pub call_all-Keeps : (out : Outside W) (ws : List Write) → Keeps (call_all {L = L} out ws)
  unfolding call_all
  call_all-Keeps out [] p u = u
  call_all-Keeps out (w ∷ ws) p u =
      resume-StaysUsable (λ _. call_all out ws) (call out w p) (λ _. call_all-Keeps out ws)
        (call-Keeps out w p u)

  pub read-Keeps :
      {A : Type 0} (f : Session → W → Result A × Session × W)
      → ((s : Session) (w : W) → (f s w).1.closed ≡ s.closed)
      → Keeps (read f)
  read-Keeps f same p u = record { live = same p.client.session p.world ∙ u.live; valid = u.valid }
