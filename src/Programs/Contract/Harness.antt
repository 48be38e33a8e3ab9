-- ===== src/Programs/Contract/Harness.antt =====
-- scripts/e2e.py: the steps of the contract test, and its report.
use intempt_python.Prelude.{ℕ, ◌+◌, ◌-◌, ◌/◌, String, Option, none, some, List, [], ◌∷◌}
use intempt_python.Errors.{Error}
use intempt_python.Python.Result.{Result, ok, raised}
use intempt_python.Client.Session.{Outside}
use intempt_python.Programs.Process.{Process, Action}

pub data State : Type 0 where
  passed failed skipped : State

-- An entry of `results`. `error` is what the note of a failed step prints.
pub record Report : Type 0 where
  pub name : String
  pub state : State
  pub ms : ℕ
  pub error : Option Error

-- A call of `step` or of `skip`. A step prints nothing but its report, which `results` holds too.
pub data Step (W : Type 0) : Type 0 where
  step : String → Action Error W (Unit {0}) → Step W
  skip : String → Step W

module _ {W : Type 0} (out : Outside W) where
  -- What `step` appends, for a call that began at `started` and ended so.
  abbrev reported : String → ℕ → Result (Unit {0}) → Process Error W → Report × Process Error W
  reported name started r p =
      let (now, w) = out.monotonic p.world in
      (
        (elim r [
          | ok u ↦ record { name = name; state = passed; ms = (now - started) / 1000; error = none }
          | raised e ↦ record {
            name = name;
            state = failed;
            ms = (now - started) / 1000;
            error = some e;
          }
        ]),
        record p { world = w },
      )

  abbrev pub judged :
      String → ℕ → Option (Result (Unit {0}) × Process Error W) → Option (Report × Process Error W)
  judged name started none = none
  judged name started (some (r, p)) = some (reported name started r p)

  unfoldable pub run_step : Step W → Process Error W → Option (Report × Process Error W)
  run_step (step name f) p =
      let (started, w) = out.monotonic p.world in judged name started (f (record p { world = w }))
  run_step (skip name) p = some (record { name = name; state = skipped; ms = 0; error = none }, p)

  abbrev pub and_report :
      Report → Option (List Report × Process Error W) → Option (List Report × Process Error W)
  and_report r none = none
  and_report r (some (rs, p)) = some (r ∷ rs, p)

  abbrev pub then_run :
      (Process Error W → Option (List Report × Process Error W))
      → Option (Report × Process Error W)
      → Option (List Report × Process Error W)
  then_run next none = none
  then_run next (some (r, p)) = and_report r (next p)

  unfoldable pub run_steps :
      List (Step W) → Process Error W → Option (List Report × Process Error W)
  run_steps [] p = some ([], p)
  run_steps (s ∷ steps) p = then_run (run_steps steps) (run_step s p)

abbrev pub is_failed : State → ℕ
is_failed failed = 1
is_failed passed = 0
is_failed skipped = 0

-- `sum(1 for r in results if r["state"] == "FAIL")`
unfoldable pub failures : List Report → ℕ
failures [] = 0
failures (r ∷ rs) = is_failed r.state + failures rs
