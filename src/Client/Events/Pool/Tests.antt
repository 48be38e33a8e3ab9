-- ===== src/Client/Events/Pool/Tests.antt =====
-- The thread pool on two groups and two workers, the second group overtaking the first.
use intempt_python.Prelude.{◌≡◌, List, [], ◌∷◌, none, refl, arith}
use intempt_python.Python.Value.{Value, dict, end}
use intempt_python.Transport.State.{Outcome, response}
use intempt_python.Client.Session.{is_opted_in, send}
use intempt_python.Client.Samples.{outside, session}
use intempt_python.Client.Wire.{IsSending}
use intempt_python.Client.Events.{send_all}
use intempt_python.Client.Events.Pool.{
  Task, Pool, IsFinal, submitted, start_pool, settle_task, raise_first, Reach, here, next, take_up,
  finish,
}
use intempt_python.Client.Events.Pool.Runs.{IsExact, pool-IsExact}
use intempt_python.Client.Events.Pool.Ends.{IsBusy, steps, pool-IsBusy}
use intempt_python.Client.Events.Pool.Sequential.{send_all-IsSchedule}

abbrev groups : List (List Value)
groups = (dict end ∷ []) ∷ (dict end ∷ dict end ∷ []) ∷ []

abbrev answers : List Outcome
answers = response 200 "" none ∷ response 503 "" none ∷ []

abbrev idle_pool : Pool (List Outcome)
idle_pool = start_pool 4 groups session answers

abbrev one : Task
one = record { index = 0; group = dict end ∷ [] }

abbrev two : Task
two = record { index = 1; group = dict end ∷ dict end ∷ [] }

abbrev both_taken : Pool (List Outcome)
both_taken = record idle_pool { waiting = []; running = two ∷ one ∷ [] }

abbrev two_sent : Pool (List Outcome)
two_sent = settle_task outside two (one ∷ []) both_taken (send outside two.group session answers)

abbrev both_sent : Pool (List Outcome)
both_sent =
    settle_task outside one [] two_sent (send outside one.group two_sent.session two_sent.world)

schedule_start : Reach outside idle_pool both_taken
unfolding start_pool
schedule_start =
    next (next here (take_up one (two ∷ []) refl (omega arith) refl))
      (take_up two [] refl (omega arith) refl)

schedule : Reach outside idle_pool both_sent
unfolding start_pool
schedule =
    next (next schedule_start (finish two [] (one ∷ []) refl refl)) (finish one [] [] refl refl)

is_sending : IsSending [] session
unfolding is_opted_in
is_sending = record { opted_in = refl; wire = record { closed = refl; sent = refl } }

pool-IsExact_example : IsExact outside groups [] session answers both_sent
pool-IsExact_example =
    pool-IsExact outside 4 groups [] session answers both_sent is_sending schedule (refl, refl)

pool-IsBusy_example : IsBusy outside 4 groups (steps outside schedule_start) both_taken
pool-IsBusy_example =
    pool-IsBusy outside 4 groups session answers both_taken (omega arith) schedule_start

send_all-IsSchedule_example :
    (p : Pool (List Outcome)) × Reach outside idle_pool p
    × IsFinal p
    × ((raise_first (submitted 0 groups) p.settled, p.session, p.world)
        ≡ send_all outside groups session answers)
send_all-IsSchedule_example =
    send_all-IsSchedule outside 4 groups session answers (omega arith) (omega arith)
