-- ===== src/Client/Events/Pool/Sequential.antt =====
-- The order of submission is one of the orders in which the thread pool may send the groups.
use intempt_python.Prelude.{
  ℕ, ◌+◌, ◌≤◌, ◌<◌, min, List, [], ◌∷◌, ◌≡◌, ◌∙◌, refl, sym, arith, length, ◌==◌, if-cases, ap,
}
use intempt_python.Python.Result.{Result, ok, raised}
use intempt_python.Python.Value.{Value}
use intempt_python.Client.Session.{Outside, Session, send}
use intempt_python.Client.Events.{send_all, first_error}
use intempt_python.Client.Events.Pool.{
  Task, Settled, Pool, IsFinal, submitted, start_pool, exception_of, first_of, raise_first, take_up,
  finish, Reach, here, next,
}

module _ {W : Type 0} (out : Outside W) where
  first_error_lem :
      (r : Result (Unit {0})) (x : Result (Unit {0}) × Session × W)
      → first_error out r x ≡ (first_of r x.0, x.1, x.2)
  first_error_lem (raised e) x = refl
  first_error_lem (ok u) x = refl

  -- A pool that is between two groups.
  abbrev Between : ℕ → ℕ → List (List Value) → List Settled → Session → W → Pool W
  Between workers index groups xs s w = record {
    workers = workers;
    waiting = submitted index groups;
    running = [];
    settled = xs;
    session = s;
    world = w;
  }

  -- The pool has ended as these calls in order do, and kept the earlier results.
  record EndsAs (start : Pool W) (index : ℕ) (groups : List (List Value)) (before : List Settled)
      (r : Result (Unit {0}) × Session × W) (p : Pool W) : Type 0 where
    run : Reach out start p
    final : IsFinal p
    same : (raise_first (submitted index groups) p.settled, p.session, p.world) ≡ r
    kept : (i : ℕ) → i < index → exception_of i p.settled ≡ exception_of i before

  exception-head :
      (t : Task) (r : Result (Unit {0})) (xs : List Settled)
      → exception_of t.index (record { task = t; result = r } ∷ xs) ≡ r
  exception-head t r xs =
      if-cases (λ x. x ≡ r) (t.index == t.index) r (exception_of t.index xs) (λ _. refl)
        (λ h. absurd (ground arith))

  exception-tail :
      (i : ℕ) (t : Task) (r : Result (Unit {0})) (xs : List Settled)
      → i < t.index
      → exception_of i (record { task = t; result = r } ∷ xs) ≡ exception_of i xs
  exception-tail i t r xs k =
      if-cases (λ x. x ≡ exception_of i xs) (t.index == i) r (exception_of i xs)
        (λ h. absurd (ground arith)) (λ _. refl)

  send_in_order :
      (start : Pool W) (workers index : ℕ) (groups : List (List Value)) (xs : List Settled)
      (s : Session) (w : W)
      → 1 ≤ workers
      → Reach out start (Between workers index groups xs s w)
      → (p : Pool W) × EndsAs start index groups xs (send_all out groups s w) p
  unfolding send_all raise_first
  send_in_order start workers index [] xs s w k run =
      (_, record { run = run; final = (refl, refl); same = refl; kept = λ i h. refl })
  send_in_order start workers index (g ∷ groups) xs s w k run =
      let t : Task = record { index = index; group = g } in
      let (r, s', w') = send out g s w in
      let begun = next run (take_up t (submitted (index + 1) groups) refl k refl) in
      let over = next begun (finish t [] [] refl refl) in
      let xs' = record { task = t; result = r } ∷ xs in
      let (p, e) = send_in_order start workers (index + 1) groups xs' s' w' k over in
      (
        p,
        record {
          run = e.run;
          final = e.final;
          same = rw (e.kept index (omega arith) ∙ exception-head t r xs) (
              ap (λ x. (first_of r x.0, x.1, x.2)) e.same
              ∙ sym (first_error_lem r (send_all out groups s' w')));
          kept = λ i h. e.kept i (omega (arith, h)) ∙ exception-tail i t r xs h;
        },
      )

  -- With a worker and a group, one schedule of the thread pool of `track_batch` ends as `send_all`
  -- does, which sends the groups in the order of submission: with the same session and world, and the
  -- error that is raised is the one of the first group, in the order of submission, whose `_send`
  -- raised.
  pub send_all-IsSchedule :
      (limit : ℕ) (groups : List (List Value)) (s : Session) (w : W)
      → 1 ≤ limit
      → 1 ≤ length groups
      → (p : Pool W) × Reach out (start_pool limit groups s w) p
        × IsFinal p
        × ((raise_first (submitted 0 groups) p.settled, p.session, p.world)
            ≡ send_all out groups s w)
  unfolding start_pool
  send_all-IsSchedule limit groups s w k n =
      let (p, e) =
        send_in_order (start_pool limit groups s w) (min limit (length groups)) 0 groups [] s w
          (omega (arith, k, n)) here in
      (p, e.run, e.final, e.same)
