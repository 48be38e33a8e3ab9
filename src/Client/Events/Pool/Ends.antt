-- ===== src/Client/Events/Pool/Ends.antt =====
-- The thread pool never idles with a group left, and ends after two steps for each group.
use intempt_python.Prelude.{
  ℕ, ◌+◌, ◌*◌, ◌≤◌, min, List, [], ◌∷◌, ◌≡◌, ◌⊎◌, ◌∙◌, inl, inr, refl, arith, length, length-append,
}
use intempt_python.Python.Value.{Value}
use intempt_python.Client.Session.{Outside, Session}
use intempt_python.Client.Events.Pool.{
  Task, Pool, IsFinal, submitted, start_pool, Step, take_up, finish, Reach, here, next,
}
use intempt_python.Client.Events.Pool.Runs.{start-IsRun, reach-IsRun}

abbrev pub work_left : {W : Type 0} → Pool W → ℕ
work_left p = 2 * length p.waiting + length p.running

length-submitted :
    (index : ℕ) (groups : List (List Value)) → length (submitted index groups) ≡ length groups
length-submitted index [] = refl
length-submitted index (g ∷ groups) = omega (arith, length-submitted (index + 1) groups)

module _ {W : Type 0} (out : Outside W) where
  abbrev pub steps : {p q : Pool W} → Reach out p q → ℕ
  steps here = 0
  steps (next run step) = steps run + 1

  step_work : (p q : Pool W) → Step out p q → work_left q + 1 ≡ work_left p
  step_work p q (take_up t rest front free after) = rw (after, front) (omega arith)
  step_work p q (finish t before rest found after) =
      rw (after, found) (omega (arith, length-append before rest, length-append before (t ∷ rest)))

  reach_work : (p q : Pool W) (run : Reach out p q) → steps run + work_left q ≡ work_left p
  reach_work p q here = omega arith
  reach_work p q (next {q = middle} run step) =
      omega (arith, reach_work p middle run, step_work middle q step)

  progress :
      (p : Pool W) (waiting running : List Task)
      → p.waiting ≡ waiting
      → p.running ≡ running
      → (1 ≤ length waiting → 1 ≤ p.workers)
      → IsFinal p ⊎ ((q : Pool W) × Step out p q)
  progress p [] [] idle over k = inl (idle, over)
  progress p waiting (t ∷ rest) w r k = inr (_, finish t [] rest r refl)
  progress p (t ∷ rest) [] w r k = inr (_, take_up t rest w (rw r (k (omega arith))) refl)

  -- Where the pool of a call stands, after the steps of a run.
  pub record IsBusy (limit : ℕ) (groups : List (List Value)) (done : ℕ) (p : Pool W) : Type 0 where
    pub bounded : length p.running ≤ min limit (length groups)
    pub counted : done + work_left p ≡ 2 * length groups
    pub goes_on : IsFinal p ⊎ ((q : Pool W) × Step out p q)

  start_work :
      (limit : ℕ) (groups : List (List Value)) (s : Session) (w : W)
      → work_left (start_pool limit groups s w) ≡ 2 * length groups
  unfolding start_pool
  start_work limit groups s w = omega (arith, length-submitted 0 groups)

  -- With at least one worker, after any steps of the thread pool of `track_batch`: no more than
  -- `min(max_concurrent_requests, len(groups))` groups are being sent; the pool is through, or it has
  -- a next step; and the steps so far with those left are two for each group, so that no run of it
  -- is longer and every run can be continued until each group is sent.
  pub pool-IsBusy :
      (limit : ℕ) (groups : List (List Value)) (s : Session) (w : W) (p : Pool W)
      → 1 ≤ limit
      → (run : Reach out (start_pool limit groups s w) p) → IsBusy limit groups (steps run) p
  pool-IsBusy limit groups s w p k run =
      let start = start_pool limit groups s w in
      let r = reach-IsRun out _ _ s w start p (start-IsRun out limit groups s w) run in
      let counted : steps run + work_left p ≡ 2 * length groups =
        reach_work start p run ∙ start_work limit groups s w in
      record {
        bounded = r.bounded;
        counted = counted;
        goes_on =
            progress p p.waiting p.running refl refl (λ h. omega (arith, r.workers_same, counted));
      }
