-- ===== src/Client/Events/Pool.antt =====
-- The thread pool of `track_batch`: its workers take the submitted groups in order, and call `_send`
-- side by side. Nothing but the transport changes in a call of `_send`, and that under its lock, so a
-- call is one step here; which running call comes next is open.
pub mod Runs
pub mod Ends
pub mod Sequential
mod Tests
use intempt_python.Prelude.{
  ℕ, suc, ◌+◌, ◌*◌, ◌<◌, Bool, List, [], ◌∷◌, ◌++◌, ◌≡◌, length, min, ◌==◌, if◌then◌else◌,
}
use intempt_python.Python.Result.{Result, ok, raised}
use intempt_python.Python.Value.{Value}
use intempt_python.Client.Session.{Outside, Session, send}

-- A future: its place in `futures`, and the group that it sends.
pub record Task : Type 0 where
  pub index : ℕ
  pub group : List Value

-- How a call of `_send` ended.
pub record Settled : Type 0 where
  pub task : Task
  pub result : Result (Unit {0})

-- The executor: what waits for a worker, what a worker is at, and what is over, the latest first.
pub record Pool (W : Type 0) : Type 0 where
  pub workers : ℕ
  pub waiting : List Task
  pub running : List Task
  pub settled : List Settled
  pub session : Session
  pub world : W

-- `pool.submit` of every group, in order.
abbrev pub submitted : ℕ → List (List Value) → List Task
submitted index [] = []
submitted index (g ∷ groups) = record { index = index; group = g } ∷ submitted (index + 1) groups

unfoldable pub start_pool : {W : Type 0} → ℕ → List (List Value) → Session → W → Pool W
start_pool limit groups s w = record {
  workers = min limit (length groups);
  waiting = submitted 0 groups;
  running = [];
  settled = [];
  session = s;
  world = w;
}

abbrev pub IsFinal : {W : Type 0} → Pool W → Type 0
IsFinal p = (p.waiting ≡ []) × (p.running ≡ [])

-- `f.exception()` of the future at a place.
abbrev pub exception_of : ℕ → List Settled → Result (Unit {0})
exception_of index [] = ok tt
exception_of index (x ∷ xs) = if x.task.index == index then x.result else exception_of index xs

abbrev pub first_of : Result (Unit {0}) → Result (Unit {0}) → Result (Unit {0})
first_of (raised e) r = raised e
first_of (ok u) r = r

-- `for error in errors: if error is not None: raise error`
unfoldable pub raise_first : List Task → List Settled → Result (Unit {0})
raise_first [] xs = ok tt
raise_first (t ∷ ts) xs = first_of (exception_of t.index xs) (raise_first ts xs)

module _ {W : Type 0} (out : Outside W) where
  -- The pool once a call of `_send` has ended.
  abbrev pub settle_task : Task → List Task → Pool W → Result (Unit {0}) × Session × W → Pool W
  settle_task t others p (r, s, w) = record p {
    running = others;
    settled = record { task = t; result = r } ∷ p.settled;
    session = s;
    world = w;
  }

  pub data Step (p q : Pool W) : Type 0 where
    take_up :
        (t : Task) (rest : List Task)
        → p.waiting ≡ t ∷ rest
        → length p.running < p.workers
        → q ≡ record p { waiting = rest; running = t ∷ p.running }
        → Step p q
    finish :
        (t : Task) (before after : List Task)
        → p.running ≡ before ++ t ∷ after
        → q ≡ settle_task t (before ++ after) p (send out t.group p.session p.world)
        → Step p q

  pub data Reach (p : Pool W) : Pool W → Type 0 where
    here : Reach p p
    next : {q r : Pool W} → Reach p q → Step q r → Reach p r
