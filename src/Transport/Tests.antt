-- ===== src/Transport/Tests.antt =====
-- Calls of the transport against a scripted network, and the theorems at concrete inputs.
use intempt_python.Prelude.{◌^◌, false, none, some, List, [], ◌∷◌, ◌≡◌, refl}
use intempt_python.Config.Samples.{show, config}
use intempt_python.Errors.{other_error}
use intempt_python.Util.{int_of_float}
use intempt_python.Python.Float.{finite, scale, of_ratio, bits, round_even, to_float}
use intempt_python.Python.Result.{ok, raised}
use intempt_python.Python.Value.{null, str, truthy}
use intempt_python.Transport.State.{
  Outcome, response, timed_out, Net, Transport, new, set_config, connect, moves,
}
use intempt_python.Transport.RetryAfter.{parse_retry_after, of_seconds}
use intempt_python.Transport.Post.{post, request_for, send_request, settle, answer, bad_status}
use intempt_python.Transport.Pool.{IsPooled}
use intempt_python.Transport.Answers.{exchanges, Answered, post-Answered}
use intempt_python.Transport.Calls.{
  Call, post_call, set_config_call, close_call, run, IsSilenced, run-IsPooled,
  run-IsSilenced_after_close,
}

-- A network that answers by a script, and then with an empty 200.
abbrev next : List Outcome → Outcome × List Outcome
next [] = (response 200 "" none, [])
next (o ∷ rest) = (o, rest)

abbrev pub net : Net (List Outcome)
net = record {
  exchange = λ c request w. next w;
  dumps = λ v. ok "{}";
  loads = λ s. none;
  parse_float = λ s. some (finite false 3 1);
  parse_date = λ s. none;
  time = λ w. (finite false 0 0, w);
  show_float = λ x. "10.0";
}

abbrev fresh : Transport
fresh = new config config.credentials

fresh-IsPooled : IsPooled fresh
unfolding new
fresh-IsPooled = record { kept = tt; released = λ h. refl }

-- One request, a new host, and another request that times out.
abbrev calls : List Call
calls =
    post_call "/track" null
    ∷ set_config_call (("host", str "eu.test") ∷ [])
    ∷ post_call "/track" null
    ∷ []

abbrev script : List Outcome
script = response 200 "done" none ∷ timed_out ∷ []

run-IsPooled_example : IsPooled (run net show calls (fresh, script)).0
run-IsPooled_example = run-IsPooled net show calls (fresh, script) fresh-IsPooled

run-IsSilenced_after_close_example :
    IsSilenced (exchanges fresh.trace) (run net show (close_call ∷ calls) (fresh, script)).0
run-IsSilenced_after_close_example = run-IsSilenced_after_close net show calls fresh script

abbrev refusals : List Outcome
refusals = response 429 "slow down" (some "1.5") ∷ []

post-Answered_example :
    Answered net fresh
      (request_for fresh "/track" "{}")
      refusals
      (post net "/track" null fresh refusals)
unfolding new
post-Answered_example = post-Answered net "/track" "{}" null fresh refusals refl refl fresh-IsPooled

-- 1.5 seconds are 1500 milliseconds, and a 429 carries them.
refused :
    (post net "/track" null fresh refusals).0 ≡ raised (bad_status 429 "slow down" (some 1500))
unfolding post new send_request truthy settle parse_retry_after of_seconds int_of_float scale answer
refused = refl

-- A Retry-After of 1e306 seconds is finite, its milliseconds are not: `int` raises.
abbrev huge : Net (List Outcome)
huge = record net { parse_float = λ s. some (finite false (10 ^ 306) 0) }

huge_retry_after_escapes :
    (post huge "/track" null fresh (response 503 "" (some "1e306") ∷ [])).0
    ≡ raised (other_error "OverflowError")
unfolding post new send_request truthy settle parse_retry_after of_seconds int_of_float scale
    of_ratio bits round_even to_float answer
huge_retry_after_escapes = refl

-- A patch of the timeout keeps the connection, which keeps the timeout that it was built with.
timeout_stays :
    (set_config
      (record config { timeout = finite false 1 0 })
      (record fresh { conn = some (connect config) })).conn
    ≡ some (connect config)
unfolding set_config moves new
timeout_stays = refl
