-- ===== src/Programs/Contract/Ended.antt =====
-- How scripts/e2e.py ends.
use intempt_python.Prelude.{
  String, Bool, true, false, Option, none, some, List, [], ◌∷◌, ◌≡◌, refl, All, All-append, ◌+◌,
  ◌||◌, not, arith, inl, inr, Bool-cases, if-cases, Returns, Returns-weaken, if◌then◌else◌,
}
use intempt_python.Prelude.{◌==◌ as eq_ℕ}
use intempt_python.Errors.{Error}
use intempt_python.Python.Result.{Result, ok, raised, Ensures}
use intempt_python.Python.Text.{is_nil}
use intempt_python.Python.Value.{Value, get}
use intempt_python.Client.Session.{Outside, Client, close_client}
use intempt_python.Client.Shutdown.{IsShut, close_client-IsShut}
use intempt_python.Client.Usable.{IsUsable}
use intempt_python.Client.Writes.{Write}
use intempt_python.Programs.Process.{
  Environ, getenv, text_or_empty, Exit, code, escapes, Process, Action, open_client,
}
use intempt_python.Programs.Keeps.{open_client-IsUsable, StaysUsable, Keeps, call-Keeps}
use intempt_python.Programs.Contract.{
  Finished, user_of, finish, close_and_report, with_first, lacks_credentials, run_loaded, script,
}
use intempt_python.Programs.Contract.Inputs.{contract_options, feed_fields}
use intempt_python.Programs.Contract.Steps.{
  named_writes, call_steps, feed_steps, last_step, all_steps,
}
use intempt_python.Programs.Contract.EnvFile.{load_env_file, Extends, load_env_file-Extends}
use intempt_python.Programs.Contract.Harness.{
  Report, Step, step, skip, State, passed, failed, skipped, is_failed, judged, run_step, and_report,
  then_run, run_steps, failures,
}
use intempt_python.Programs.Contract.Buffered.{buffered-Keeps, real_feed-Keeps, unknown_feed-Keeps}

module _ {W : Type 0} where
  -- A step whose call ends.
  abbrev IsSafe : Step W → Type 0
  IsSafe (step name f) = Keeps f
  IsSafe (skip name) = Unit

module _ {W : Type 0} (out : Outside W) where
  -- The report of a call that ended so.
  abbrev pub Reported : Result (Unit {0}) → Report → Type 0
  Reported (ok u) r = (r.state ≡ passed) × (r.error ≡ none)
  Reported (raised e) r = (r.state ≡ failed) × (r.error ≡ some e)

  -- The report of a step that was made from `p`, and the process after it: the clock is read, the call
  -- is made, the clock is read again.
  abbrev pub Made : Step W → Process Error W → Report → Process Error W → Type 0
  Made (step name f) p r p' =
      (m : Result (Unit {0})) × (q : Process Error W) × (f
          (record p { world = (out.monotonic p.world).1 })
        ≡ some (m, q))
      × (r.name ≡ name)
      × Reported m r
      × (p' ≡ record q { world = (out.monotonic q.world).1 })
  Made (skip name) p r p' = (r.name ≡ name) × (r.state ≡ skipped) × (p' ≡ p)

  -- Each step has been made after those before it, and has its own report, in order.
  abbrev pub AllMade : List (Step W) → Process Error W → List Report → Process Error W → Type 0
  AllMade [] p [] p' = p' ≡ p
  AllMade (s ∷ steps) p (r ∷ rs) p' = (q : Process Error W) × Made s p r q × AllMade steps q rs p'
  AllMade steps p rs p' = ⊥

  judged-Made :
      (name : String) (f : Action Error W (Unit {0})) (p : Process Error W)
      (o : Option (Result (Unit {0}) × Process Error W))
      → f (record p { world = (out.monotonic p.world).1 }) ≡ o
      → StaysUsable o
      → Returns
          (λ (r, p'). Made (step name f) p r p' × IsUsable p'.client)
          (judged out name (out.monotonic p.world).0 o)
  judged-Made name f p none e u = absurd u
  judged-Made name f p (some (ok v, q)) e u =
      ((ok v, q, e, refl, (refl, refl), refl), record { live = u.live; valid = u.valid })
  judged-Made name f p (some (raised error, q)) e u =
      ((raised error, q, e, refl, (refl, refl), refl), record { live = u.live; valid = u.valid })

  run_step-Made :
      (s : Step W) (p : Process Error W)
      → IsSafe s
      → IsUsable p.client
      → Returns (λ (r, p'). Made s p r p' × IsUsable p'.client) (run_step out s p)
  unfolding run_step
  run_step-Made (step name f) p safe u =
      judged-Made name f p (f (record p { world = (out.monotonic p.world).1 })) refl
        (safe (record p { world = (out.monotonic p.world).1 }) u)
  run_step-Made (skip name) p safe u = ((refl, refl, refl), u)

  abbrev Makes : List (Step W) → Process Error W → Option (List Report × Process Error W) → Type 0
  Makes steps p = Returns (λ (rs, p'). AllMade steps p rs p' × IsUsable p'.client)

  and_report-Makes :
      (r : Report) (s : Step W) (steps : List (Step W)) (p q : Process Error W)
      (o : Option (List Report × Process Error W))
      → Made s p r q
      → Makes steps q o
      → Makes (s ∷ steps) p (and_report out r o)
  and_report-Makes r s steps p q none made h = h
  and_report-Makes r s steps p q (some (rs, p')) made h = ((q, made, h.0), h.1)

  then_run-Makes :
      (s : Step W) (steps : List (Step W)) (p : Process Error W)
      (next : Process Error W → Option (List Report × Process Error W))
      (o : Option (Report × Process Error W))
      → ((q : Process Error W) → IsUsable q.client → Makes steps q (next q))
      → Returns (λ (r, q). Made s p r q × IsUsable q.client) o
      → Makes (s ∷ steps) p (then_run out next o)
  then_run-Makes s steps p next none k h = absurd h
  then_run-Makes s steps p next (some (r, q)) k h =
      and_report-Makes r s steps p q (next q) h.0 (k q h.1)

  run_steps-Makes :
      (steps : List (Step W)) (p : Process Error W)
      → All IsSafe steps
      → IsUsable p.client
      → Makes steps p (run_steps out steps p)
  unfolding run_steps
  run_steps-Makes [] p safe u = (refl, u)
  run_steps-Makes (s ∷ steps) p safe u =
      then_run-Makes s steps p (run_steps out steps) (run_step out s p)
        (λ q v. run_steps-Makes steps q safe.1 v) (run_step-Made s p safe.0 u)

  call_steps-IsSafe : (writes : List (String × Write)) → All IsSafe (call_steps out writes)
  call_steps-IsSafe [] = tt
  call_steps-IsSafe ((name, w) ∷ rest) = (call-Keeps out w, call_steps-IsSafe rest)

  feed_steps-IsSafe : (env : Environ) (user : String) → All IsSafe (feed_steps out env user)
  unfolding feed_steps
  feed_steps-IsSafe env user =
      if-cases (All IsSafe) (is_nil (text_or_empty (getenv "INTEMPT_E2E_FEED_ID" env))) _ _
        (λ _. (tt, tt))
        (λ _. (
          real_feed-Keeps out user _ (feed_fields env),
          (unknown_feed-Keeps out user (feed_fields env), tt),
        ))

  all_steps-IsSafe :
      (env : Environ) (logger : Value) (user : String) (yesterday : Value)
      → All IsSafe (all_steps out env logger user yesterday)
  unfolding all_steps last_step
  all_steps-IsSafe env logger user yesterday =
      All-append IsSafe (call_steps out (named_writes env user yesterday)) _
        (call_steps-IsSafe (named_writes env user yesterday))
        (All-append IsSafe (feed_steps out env user) _ (feed_steps-IsSafe env user)
          (buffered-Keeps out user logger env, tt))

  -- The code of a run with these reports: 0 if no step failed, 1 otherwise.
  abbrev pub Exits : Bool → Exit → Type 0
  Exits false exit = exit ≡ code 0
  Exits true exit = exit ≡ code 1

  abbrev pub is_failure : State → Bool
  is_failure failed = true
  is_failure state = false

  abbrev pub any_failed : List Report → Bool
  any_failed [] = false
  any_failed (r ∷ rs) = is_failure r.state || any_failed rs

  -- The script has made all its steps, from a client that it then closed.
  abbrev pub HasReported : List (Step W) → Process Error W → Finished W → Type 0
  HasReported steps start d =
      (p : Process Error W) × (c : Client) × AllMade steps start d.reports p
      × Exits (any_failed d.reports) d.exit
      × (d.client ≡ some c)
      × IsShut p.client.buffer c

  counted_failures : (rs : List Report) → eq_ℕ (failures rs) 0 ≡ not (any_failed rs)
  unfolding failures
  counted_failures [] = refl
  counted_failures (r ∷ rs) = first_failure r.state rs (counted_failures rs)
    where
      first_failure :
          (state : State) (rs : List Report)
          → eq_ℕ (failures rs) 0 ≡ not (any_failed rs)
          → eq_ℕ (is_failed state + failures rs) 0 ≡ not (is_failure state || any_failed rs)
      first_failure passed rs h = ground (arith, h)
      first_failure skipped rs h = ground (arith, h)
      first_failure failed rs h = ground arith

  exits_lem :
      (rs : List Report) → Exits (any_failed rs) (if eq_ℕ (failures rs) 0 then code 0 else code 1)
  exits_lem rs = exits (any_failed rs) (counted_failures rs)
    where
      exits :
          (b : Bool)
          → eq_ℕ (failures rs) 0 ≡ not b
          → Exits b (if eq_ℕ (failures rs) 0 then code 0 else code 1)
      exits true h = rw h refl
      exits false h = rw h refl

  finish-HasReported :
      (env : Environ) (steps : List (Step W)) (start : Process Error W) (rs : List Report)
      (p : Process Error W) (o : Option (Client × W))
      → AllMade steps start rs p
      → Returns (λ (c, w). IsShut p.client.buffer c) o
      → Returns (λ d. HasReported steps start d × (d.environ ≡ env)) (finish out env rs o)
  finish-HasReported env steps start rs p none made h = h
  finish-HasReported env steps start rs p (some (c, w)) made h =
      ((p, c, made, exits_lem rs, refl, h), refl)

  close-HasReported :
      (env : Environ) (steps : List (Step W)) (start : Process Error W)
      (o : Option (List Report × Process Error W))
      → Makes steps start o
      → Returns (λ d. HasReported steps start d × (d.environ ≡ env)) (close_and_report out env o)
  close-HasReported env steps start none h = absurd h
  close-HasReported env steps start (some (rs, p)) h =
      finish-HasReported env steps start rs p (close_client out p.client p.world) h.0
        (close_client-IsShut out p.client p.world h.1.live h.1.valid)

  module _ (logger yesterday : Value) where
    -- How the script ended, by whether a credential was missing and by what the constructor did.
    abbrev pub Ended : Environ → W → Bool → Result Client → Finished W → Type 0
    Ended env w true m d = (d.exit ≡ code 2) × (d.client ≡ none) × (d.world ≡ w)
    Ended env w false (raised e) d = (d.exit ≡ escapes e) × (d.client ≡ none) × (d.reports ≡ [])
    Ended env w false (ok c) d =
        let (user, w') = user_of out (text_or_empty (getenv "INTEMPT_E2E_USER_ID" env)) w in
        HasReported (all_steps out env logger user yesterday)
          (record { client = c; world = w'; printed = [] }) d

    with_first-Ended :
        (m : Result Client) (env : Environ) (w : W)
        → Ensures IsUsable m
        → Returns
            (λ d. Ended env w false m d × (d.environ ≡ env))
            (with_first out m env logger yesterday
              (user_of out (text_or_empty (getenv "INTEMPT_E2E_USER_ID" env)) w))
    with_first-Ended (raised e) env w u = ((refl, refl, refl), refl)
    with_first-Ended (ok c) env w u =
        let (user, w') = user_of out (text_or_empty (getenv "INTEMPT_E2E_USER_ID" env)) w in
        let steps = all_steps out env logger user yesterday in
        let start : Process Error W = record { client = c; world = w'; printed = [] } in
        close-HasReported env steps start (run_steps out steps start)
          (run_steps-Makes steps start (all_steps-IsSafe env logger user yesterday) u)

    contract-IsUsable :
        (env : Environ) → Ensures IsUsable (open_client out.show logger (contract_options env))
    unfolding contract_options get
    contract-IsUsable env = open_client-IsUsable out.show logger (contract_options env) tt

    run_loaded-Ended :
        (env : Environ) (w : W)
        → Returns
            (λ d.
              Ended env w
                (lacks_credentials out env)
                (open_client out.show logger (contract_options env))
                d
              × (d.environ ≡ env))
            (run_loaded out env logger yesterday w)
    unfolding run_loaded
    run_loaded-Ended env w =
        let m = open_client out.show logger (contract_options env) in
        elim (Bool-cases (lacks_credentials out env)) [
          | inl lacks ↦ rw lacks ((refl, refl, refl), refl)
          | inr has ↦ rw has (with_first-Ended m env w (contract-IsUsable env))
        ]

    -- scripts/e2e.py: the file `.env.local` changes no variable that is set before. With what it adds,
    -- the script ends, whatever the service does: with code 2, without a client and with nothing
    -- sent, if a credential is missing; by the exception of the constructor, if that raises; and
    -- otherwise after all its steps, made in order, each from the process that the one before it
    -- left. A step whose call returned is reported under its name as passed, one whose call raised as
    -- failed with that exception, and one that is skipped as skipped. The code is then 1 if a step
    -- failed and 0 if none did, and the client is closed.
    pub script-Ended :
        (file : Option (List String)) (env : Environ) (w : W)
        → Extends env (load_env_file file env).1
          × Returns
              (λ d.
                let env' = (load_env_file file env).1 in
                Ended env' w
                  (lacks_credentials out env')
                  (open_client out.show logger (contract_options env'))
                  d)
              (script out file env logger yesterday w)
    unfolding script
    script-Ended file env w =
        let env' = (load_env_file file env).1 in
        (
          load_env_file-Extends file env,
          Returns-weaken _ _ (run_loaded out env' logger yesterday w) (λ d h. h.0)
              (run_loaded-Ended env' w),
        )
