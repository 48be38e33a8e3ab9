-- ===== src/Programs/Contract/Buffered.antt =====
-- The steps of the contract test that do more than write: each ends, and leaves the client usable.
use intempt_python.Prelude.{String, Option, none, some, List, arith, Returns}
use intempt_python.Errors.{Error, config_error, api_error, other_error}
use intempt_python.Python.Result.{Result, ok, raised, Ensures}
use intempt_python.Python.Value.{Value, get}
use intempt_python.Client.Session.{Outside, Client, close_client, flush_client}
use intempt_python.Client.Shutdown.{IsShut, close_client-IsShut}
use intempt_python.Client.Usable.{IsUsable, flush_client-IsUsable}
use intempt_python.Client.Usable.Reads.{recommend_live}
use intempt_python.Client.Recommend.{recommend}
use intempt_python.Programs.Process.{Environ, Process, read, call_all, open_client}
use intempt_python.Programs.Keeps.{
  open_client-IsUsable, StaysUsable, Keeps, bind-Keeps, call_all-Keeps, read-Keeps,
}
use intempt_python.Programs.Contract.Inputs.{batched_options}
use intempt_python.Programs.Contract.Steps.{
  checked_length, rejected_feed, restored, after_flush, five_events, flush_action, fill_and_flush,
  then_close, with_second, buffered, feed_request, real_feed, unknown_feed,
}

module _ {W : Type 0} where
  rejected_feed-StaysUsable :
      (o : Option (Result Value × Process Error W)) → StaysUsable o → StaysUsable (rejected_feed o)
  rejected_feed-StaysUsable none u = u
  rejected_feed-StaysUsable (some (ok v, p)) u = u
  rejected_feed-StaysUsable (some (raised (api_error e), p)) u = u
  rejected_feed-StaysUsable (some (raised (config_error m), p)) u = u
  rejected_feed-StaysUsable (some (raised (other_error name), p)) u = u

  after_flush-StaysUsable :
      (p : Process Error W) (o : Option (Client × W))
      → Returns (λ (c, w). IsUsable c) o
      → StaysUsable (after_flush p o)
  after_flush-StaysUsable p none h = h
  after_flush-StaysUsable p (some (c, w)) h = h

  restored-StaysUsable :
      (r : Result (Unit {0})) (p : Process Error W) (before : Client) (o : Option (Client × W))
      → IsUsable p.client
      → Returns (λ (c, w). IsShut before.buffer c) o
      → StaysUsable (restored r p o)
  restored-StaysUsable r p before none u h = absurd h
  restored-StaysUsable r p before (some (c, w)) u h = u

module _ {W : Type 0} (out : Outside W) where
  flush_action-Keeps : Keeps (flush_action out)
  flush_action-Keeps p u =
      after_flush-StaysUsable p (flush_client out p.client p.world)
        (flush_client-IsUsable out p.client p.world u)

  fill_and_flush-Keeps : (user : String) → Keeps (fill_and_flush out user)
  unfolding fill_and_flush
  fill_and_flush-Keeps user =
      bind-Keeps (call_all out (five_events user)) (λ _. flush_action out)
        (call_all-Keeps out (five_events user)) (λ _. flush_action-Keeps)

  -- Whatever became of the second client, it is closed, and the first is as it was.
  then_close-StaysUsable :
      (p : Process Error W) (o : Option (Result (Unit {0}) × Process Error W))
      → IsUsable p.client
      → StaysUsable o
      → StaysUsable (then_close out p o)
  then_close-StaysUsable p none u h = h
  then_close-StaysUsable p (some (r, q)) u h =
      restored-StaysUsable r p q.client (close_client out q.client q.world) u
        (close_client-IsShut out q.client q.world h.live h.valid)

  with_second-StaysUsable :
      (user : String) (m : Result Client) (p : Process Error W)
      → Ensures IsUsable m
      → IsUsable p.client
      → StaysUsable (with_second out user m p)
  with_second-StaysUsable user (raised e) p h u = u
  with_second-StaysUsable user (ok c) p h u =
      then_close-StaysUsable p (fill_and_flush out user (record p { client = c })) u
        (fill_and_flush-Keeps user (record p { client = c }) h)

  pub buffered-Keeps :
      (user : String) (logger : Value) (env : Environ)
      → Keeps (buffered out user (open_client out.show logger (batched_options env)))
  unfolding buffered batched_options get
  buffered-Keeps user logger env p u =
      with_second-StaysUsable user (open_client out.show logger (batched_options env)) p
        (open_client-IsUsable out.show logger (batched_options env)
          (record { size_pos = omega arith; flush_pos = omega arith; size-le-max = omega arith }))
        u

  pub real_feed-Keeps :
      (user feed : String) (names : List String) → Keeps (real_feed out user feed names)
  unfolding real_feed
  real_feed-Keeps user feed names =
      let r = feed_request out user feed names 3 in
      bind-Keeps (read (recommend out r)) checked_length
        (read-Keeps (recommend out r) (recommend_live out r)) (λ v p u. u)

  pub unknown_feed-Keeps :
      (user : String) (names : List String) → Keeps (unknown_feed out user names)
  unfolding unknown_feed
  unknown_feed-Keeps user names p u =
      let r = feed_request out user "000000000" names 1 in
      rejected_feed-StaysUsable (read (recommend out r) p)
        (read-Keeps (recommend out r) (recommend_live out r) p u)
