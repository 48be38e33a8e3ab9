-- ===== src/Programs/Contract.antt =====
-- scripts/e2e.py: the contract test against a real environment.
pub mod EnvFile
pub mod Harness
pub mod Inputs
pub mod Steps
pub mod Buffered
pub mod Ended
mod Tests
use Prim.Native.Char.{code as code_point}
use Prim.Native.String.{◌++◌}
use Prim.Native.String.{[] as empty, ◌∷◌ as char_on}
use intempt_python.Prelude.{
  ℕ, zero, suc, ◌+◌, String, Bool, true, false, ◌||◌, not, Option, none, some, List, [], ◌∷◌,
  length, if◌then◌else◌,
}
use intempt_python.Prelude.{◌++◌ as append, ◌==◌ as eq_ℕ}
use intempt_python.Errors.{Error, config_error, api_error, other_error}
use intempt_python.Python.Float.{pos}
use intempt_python.Python.Result.{Result, ok, raised}
use intempt_python.Python.Text.{is_nil, strip, partition, contains}
use intempt_python.Python.Value.{
  Value, null, int, str, list, dict, nil, batch_options, Options, field, end, items_of, fields_of,
  truthy,
}
use intempt_python.Client.Session.{Outside, Client, items, close_client, flush_client}
use intempt_python.Client.Consent.{accept, reject}
use intempt_python.Client.Recommend.{Recommendation, recommend}
use intempt_python.Client.Writes.{
  Write, track_call, track_batch_call, identify_call, group_call, product_viewed_call,
  added_to_cart_call, ordered_call, consent_call,
}
use intempt_python.Programs.Process.{
  Environ, getenv, text_or_empty, or_text, Exit, code, escapes, Process, Action, resume, return,
  call, call_all, read, open_client, ◌>>=◌, ◌>>◌,
}
use intempt_python.Programs.Contract.EnvFile.{load_env_file}
use intempt_python.Programs.Contract.Harness.{Step, step, skip, Report, run_steps, failures}
use intempt_python.Programs.Contract.Inputs.{
  split_fields, feed_fields, setting, value_or_none, hex_prefix, contract_options, batched_options,
  texts, with_user, or_default,
}
use intempt_python.Programs.Contract.Steps.{
  check_length, checked_length, rejected_feed, restored, after_flush, five_events, named_writes,
  flush_action, fill_and_flush, then_close, with_second, buffered, feed_request, real_feed,
  unknown_feed, call_steps, feed_steps, last_step, all_steps,
}

-- The script at its end; `client` is its first client, if it came so far.
pub record Finished (W : Type 0) : Type 0 where
  pub exit : Exit
  pub reports : List Report
  pub client : Option Client
  pub world : W
  pub environ : Environ

module _ {W : Type 0} (out : Outside W) where
  -- `USER_ID or f"sdk-e2e-…@example.com"`; `uuid4` is called only where it is needed.
  abbrev pub user_of : String → W → String × W
  user_of user w =
      let (id, w') = out.uuid w in
      if is_nil user then ("sdk-e2e-" ++ (hex_prefix 12 id ++ "@example.com"), w') else (user, w)

  abbrev pub finish : Environ → List Report → Option (Client × W) → Option (Finished W)
  finish env rs none = none
  finish env rs (some (c, w)) = some (record {
    exit = if eq_ℕ (failures rs) 0 then code 0 else code 1;
    reports = rs;
    client = some c;
    world = w;
    environ = env;
  })

  -- `client.close()`, and the report.
  abbrev pub close_and_report :
      Environ → Option (List Report × Process Error W) → Option (Finished W)
  close_and_report env none = none
  close_and_report env (some (rs, p)) = finish env rs (close_client out p.client p.world)

  abbrev pub stopped : Exit → Environ → W → Option (Finished W)
  stopped exit env w =
      some (record { exit = exit; reports = []; client = none; world = w; environ = env })

  abbrev pub with_first : Result Client → Environ → Value → Value → String × W → Option (Finished W)
  with_first (raised e) env logger yesterday (user, w) = stopped (escapes e) env w
  with_first (ok c) env logger yesterday (user, w) = close_and_report env (
      run_steps out (all_steps out env logger user yesterday)
        (record { client = c; world = w; printed = [] }))

  abbrev pub lacks_credentials : Environ → Bool
  lacks_credentials env =
      is_nil (setting "INTEMPT_E2E_API_KEY" env)
      || (is_nil (setting "INTEMPT_E2E_ORG" env) || is_nil (setting "INTEMPT_E2E_PROJECT" env))

  unfoldable pub run_loaded : Environ → Value → Value → W → Option (Finished W)
  run_loaded env logger yesterday w =
      if lacks_credentials env
      then stopped (code 2) env w
      else with_first (open_client out.show logger (contract_options env)) env logger yesterday
          (user_of (setting "INTEMPT_E2E_USER_ID" env) w)

  -- The script, from the lines of `.env.local` if it is there.
  unfoldable pub script : Option (List String) → Environ → Value → Value → W → Option (Finished W)
  script file env logger yesterday w = run_loaded (load_env_file file env).1 logger yesterday w
