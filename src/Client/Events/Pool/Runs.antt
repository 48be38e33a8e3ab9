-- ===== src/Client/Events/Pool/Runs.antt =====
-- Whatever the workers do: every group is sent once, and the calls of `_send` are those of some order.
use mathlib.Core.List.{Perm, perm_middle}
use mathlib.Core.List.Perm
use intempt_python.Prelude.{
  ℕ, ◌≤◌, String, List, [], ◌∷◌, ◌++◌, ◌≡◌, refl, arith, length, length-append, ap, sym,
  append_assoc, append-nil, min,
}
use mathlib.Core.Path.{subst}
use intempt_python.Python.Result.{Result}
use intempt_python.Python.Value.{Value}
use intempt_python.Client.Session.{Outside, Session, send}
use intempt_python.Client.Wire.{IsSending, wire_of, send-IsSending}
use intempt_python.Client.Events.Pool.{
  Task, Settled, Pool, IsFinal, submitted, start_pool, Step, take_up, finish, Reach, here, next,
}

abbrev pub tasks_of : List Settled → List Task
tasks_of [] = []
tasks_of (x ∷ xs) = x.task ∷ tasks_of xs

moved :
    (t : Task) (before rest done : List Task)
    → Perm ((before ++ rest) ++ t ∷ done) ((before ++ t ∷ rest) ++ done)
moved t before rest done =
    Perm.trans (perm_middle (before ++ rest) done)
      (Perm.symm (Perm.append_right done (perm_middle before rest)))

module _ {W : Type 0} (out : Outside W) where
  abbrev pub then_record :
      Task → (Result (Unit {0}) × Session × W) → List Settled → List Settled × Session × W
  then_record t (r, s, w) xs = (record { task = t; result = r } ∷ xs, s, w)

  -- The calls of `_send` for these tasks, one after the other, the last task first.
  abbrev pub replay : List Task → Session → W → List Settled × Session × W
  replay [] s w = ([], s, w)
  replay (t ∷ ts) s w =
      let (xs, s', w') = replay ts s w in then_record t (send out t.group s' w') xs

  abbrev pub wire_of_all : List Task → List String
  wire_of_all [] = []
  wire_of_all (t ∷ ts) = wire_of out t.group ++ wire_of_all ts

  module _ (tasks : List Task) (workers : ℕ) (s : Session) (w : W) where
    -- A run so far: each task is somewhere, once; no more than the workers run; and the calls that
    -- are over were made in the order in which they ended, with nothing between them.
    pub record IsRun (p : Pool W) : Type 0 where
      pub each_once : Perm (p.waiting ++ (p.running ++ tasks_of p.settled)) tasks
      pub bounded : length p.running ≤ workers
      pub workers_same : p.workers ≡ workers
      pub replayed : replay (tasks_of p.settled) s w ≡ (p.settled, p.session, p.world)

    step-IsRun : (p q : Pool W) → IsRun p → Step out p q → IsRun q
    step-IsRun p q h (take_up t rest front free after) = subst IsRun (sym after) (record {
      each_once =
          Perm.trans (perm_middle rest (p.running ++ tasks_of p.settled))
            (subst (λ xs. Perm (xs ++ (p.running ++ tasks_of p.settled)) tasks) front h.each_once);
      bounded = omega (arith, free, h.workers_same);
      workers_same = h.workers_same;
      replayed = h.replayed;
    })
    step-IsRun p q h (finish t before rest found after) =
        let (r, s', w') = send out t.group p.session p.world in
        subst IsRun (sym after) (record {
          each_once =
              Perm.trans (Perm.append_left p.waiting (moved t before rest (tasks_of p.settled))) (
                subst (λ xs. Perm (p.waiting ++ (xs ++ tasks_of p.settled)) tasks) found
                  h.each_once);
          bounded = omega (
            arith,
            length-append before rest,
            length-append before (t ∷ rest),
            subst (λ xs. length xs ≤ workers) found h.bounded,
          );
          workers_same = h.workers_same;
          replayed = rw h.replayed refl;
        })

    pub reach-IsRun : (p q : Pool W) → IsRun p → Reach out p q → IsRun q
    reach-IsRun p q h here = h
    reach-IsRun p q h (next {q = middle} run step) =
        step-IsRun middle q (reach-IsRun p middle h run) step

  -- What holds of a pool when its executor has shut down: every group was given to `_send` once, in
  -- some order; the results, the session and the world are those of these calls one after the other;
  -- and the transport has sent the payloads in this order.
  pub record IsExact (groups : List (List Value)) (base : List String) (s : Session) (w : W)
      (p : Pool W) : Type 0 where
    pub each_once : Perm (tasks_of p.settled) (submitted 0 groups)
    pub replayed : replay (tasks_of p.settled) s w ≡ (p.settled, p.session, p.world)
    pub wire : IsSending (wire_of_all (tasks_of p.settled) ++ base) p.session

  pub start-IsRun :
      (limit : ℕ) (groups : List (List Value)) (s : Session) (w : W)
      → IsRun (submitted 0 groups) (min limit (length groups)) s w (start_pool limit groups s w)
  unfolding start_pool
  start-IsRun limit groups s w = record {
    each_once =
        subst (λ xs. Perm xs (submitted 0 groups)) (sym (append-nil (submitted 0 groups)))
          (Perm.refl (submitted 0 groups));
    bounded = omega arith;
    workers_same = refl;
    replayed = refl;
  }

  replay-IsSending :
      (ts : List Task) (base : List String) (s : Session) (w : W)
      → IsSending base s
      → IsSending (wire_of_all ts ++ base) (replay ts s w).1
  replay-IsSending [] base s w h = h
  replay-IsSending (t ∷ ts) base s w h = rw append_assoc (
      send-IsSending out t.group (wire_of_all ts ++ base) (replay ts s w).1 (replay ts s w).2
        (replay-IsSending ts base s w h))

  -- The thread pool of `track_batch` sends every group exactly once, whatever the interleaving of its
  -- workers. From an open client that has opted in, when no group waits and no worker runs, the
  -- groups that `_send` was called with are those of the chunks, in some order; the results, the
  -- session and the world are as if these calls had been made one after the other in that order, and
  -- what the transport has sent are their payloads in that order, after what it had sent before.
  pub pool-IsExact :
      (limit : ℕ) (groups : List (List Value)) (base : List String) (s : Session) (w : W)
      (p : Pool W)
      → IsSending base s
      → Reach out (start_pool limit groups s w) p
      → IsFinal p
      → IsExact groups base s w p
  pool-IsExact limit groups base s w p h run (idle, over) =
      let r =
        reach-IsRun (submitted 0 groups) (min limit (length groups)) s w
          (start_pool limit groups s w) p (start-IsRun limit groups s w) run in
      record {
        each_once =
            subst (λ xs. Perm (xs ++ tasks_of p.settled) (submitted 0 groups)) over
              (subst (λ xs. Perm (xs ++ (p.running ++ tasks_of p.settled)) (submitted 0 groups))
                idle r.each_once);
        replayed = r.replayed;
        wire =
            subst (λ s'. IsSending (wire_of_all (tasks_of p.settled) ++ base) s')
              (ap (λ x. x.1) r.replayed) (replay-IsSending (tasks_of p.settled) base s w h);
      }
