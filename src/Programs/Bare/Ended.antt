-- ===== src/Programs/Bare/Ended.antt =====
-- How examples/bare/send.py ends.
use intempt_python.Prelude.{
  ℕ, String, Option, none, some, List, [], ◌∷◌, ◌≡◌, refl, if-cases, Returns, Returns-weaken,
  length,
}
use intempt_python.Errors.{config_error, api_error, other_error, retryable}
use intempt_python.Python.Result.{Result, ok, raised, Ensures}
use intempt_python.Python.Text.{is_nil}
use intempt_python.Python.Value.{Value, str, get}
use intempt_python.Client.Session.{Outside, Client, close_client}
use intempt_python.Client.Shutdown.{IsShut, close_client-IsShut}
use intempt_python.Client.Usable.{IsUsable}
use intempt_python.Client.Usable.Reads.{string_variation_live, all_flags_live, recommend_live}
use intempt_python.Client.Flags.{string_variation}
use intempt_python.Client.AllFlags.{all_flags}
use intempt_python.Client.Recommend.{recommend}
use intempt_python.Programs.Process.{
  Exit, code, escapes, Environ, getenv, text_or_empty, missing_of, Process, read, print, call_all,
  open_client,
}
use intempt_python.Programs.Keeps.{
  open_client-IsUsable, StaysUsable, Keeps, bind-Keeps, print-Keeps, call_all-Keeps, read-Keeps,
}
use intempt_python.Programs.Bare.{
  Line, flags_line, feed_line, feed_unavailable, feed_request, Done, required_names, user_of,
  missing_environment, bad_arguments, api_failed, sent_line, client_options, joined, print_joined,
  print_flags, print_feed, show_feed, calls, writes_of, context_of, show_variation, show_flags,
  variation_line, judge, report, ended, leave, with_client, unless_missing, main,
}

module _ {W : Type 0} where
  print_joined-Keeps : (n : ℕ) (m : Result (List String)) → Keeps (print_joined {W = W} n m)
  print_joined-Keeps n (raised e) p u = u
  print_joined-Keeps n (ok names) p u = print-Keeps (flags_line n names) p u

  print_feed-StaysUsable :
      (o : Option (Result Value × Process Line W)) → StaysUsable o → StaysUsable (print_feed o)
  print_feed-StaysUsable none h = h
  print_feed-StaysUsable (some (ok feed, p)) h = print-Keeps (feed_line feed) p h
  print_feed-StaysUsable (some (raised (api_error e), p)) h =
      print-Keeps (feed_unavailable e.message) p h
  print_feed-StaysUsable (some (raised (config_error m), p)) h = h
  print_feed-StaysUsable (some (raised (other_error name), p)) h = h

module _ {W : Type 0} (out : Outside W) where
  show_feed-Keeps : (user feed : String) → Keeps (show_feed out user feed)
  unfolding show_feed
  show_feed-Keeps user feed p u =
      if-cases StaysUsable (is_nil feed) _ _ (λ _. u)
        (λ _.
          let r = feed_request out user feed in
          print_feed-StaysUsable (read (recommend out r) p)
            (read-Keeps (recommend out r) (recommend_live out r) p u))

  show_variation-Keeps : (user : String) → Keeps (show_variation out user)
  unfolding show_variation
  show_variation-Keeps user =
      let f =
        string_variation out (str "pricing_cta") (some (context_of user)) (str "Get started") in
      bind-Keeps (read f) (λ cta. print (variation_line cta))
        (read-Keeps f (string_variation_live out _ _ _)) (λ cta. print-Keeps (variation_line cta))

  show_flags-Keeps : (user : String) → Keeps (show_flags out user)
  unfolding show_flags
  show_flags-Keeps user =
      let f = all_flags out (some (context_of user)) in
      bind-Keeps (read f) print_flags (read-Keeps f (all_flags_live out _))
        (λ flags. print_joined-Keeps (length flags) (joined flags))

  calls-Keeps : (user feed : String) → Keeps (calls out user feed)
  unfolding calls
  calls-Keeps user feed =
      bind-Keeps (call_all out (writes_of user)) _ (call_all-Keeps out (writes_of user)) λ _.
        bind-Keeps (show_variation out user) _ (show_variation-Keeps user) λ _.
          bind-Keeps (show_flags out user) (λ _. show_feed out user feed) (show_flags-Keeps user)
            λ _. show_feed-Keeps user feed

  -- The client that the process has closed.
  abbrev pub HasShut : Client → Option Client → Type 0
  HasShut before none = ⊥
  HasShut before (some c) = IsShut before.buffer c

  -- The exit that a script documents for the end of its calls, and the last line it prints.
  abbrev pub Concludes : String → Result (Unit {0}) → Exit → List Line → List Line → Type 0
  Concludes user (ok u) exit before after = (exit ≡ code 0) × (after ≡ sent_line user ∷ before)
  Concludes user (raised (config_error m)) exit before after =
      (exit ≡ code 2) × (after ≡ bad_arguments m ∷ before)
  Concludes user (raised (api_error e)) exit before after =
      (exit ≡ code 1) × (after ≡ api_failed e.status (retryable e) e.body ∷ before)
  Concludes user (raised (other_error name)) exit before after =
      (exit ≡ escapes (other_error name)) × (after ≡ before)

  concludes_lem :
      (user : String) (r : Result (Unit {0})) (printed : List Line)
      → Concludes user r (judge out r) printed (report out user r printed)
  concludes_lem user (ok u) printed = (refl, refl)
  concludes_lem user (raised (config_error m)) printed = (refl, refl)
  concludes_lem user (raised (api_error e)) printed = (refl, refl)
  concludes_lem user (raised (other_error name)) printed = (refl, refl)

  -- How the process ended, by what was missing in the environment and by what the constructor did.
  abbrev pub Ended : List String → Result Client → Environ → W → Done W → Type 0
  Ended (name ∷ names) m env w d =
      (d.exit ≡ code 2)
      × (d.client ≡ none)
      × (d.world ≡ w)
      × (d.printed ≡ missing_environment (name ∷ names) ∷ [])
  Ended [] (raised (config_error e)) env w d =
      (d.exit ≡ code 2) × (d.client ≡ none) × (d.world ≡ w) × (d.printed ≡ bad_arguments e ∷ [])
  Ended [] (raised e) env w d =
      (d.exit ≡ escapes e) × (d.client ≡ none) × (d.world ≡ w) × (d.printed ≡ [])
  Ended [] (ok c) env w d =
      (r : Result (Unit {0})) × (p : Process Line W) × (calls out (user_of env)
          (text_or_empty (getenv "INTEMPT_FEED_ID" env))
          (record { client = c; world = w; printed = [] })
        ≡ some (r, p))
      × Concludes (user_of env) r d.exit p.printed d.printed
      × HasShut p.client d.client

  ended-HasShut :
      (user : String) (r : Result (Unit {0})) (p : Process Line W) (o : Option (Client × W))
      → Returns (λ (c, w). IsShut p.client.buffer c) o
      → Returns
          (λ d. Concludes user r d.exit p.printed d.printed × HasShut p.client d.client)
          (ended out (judge out r) (report out user r p.printed) o)
  ended-HasShut user r p none h = absurd h
  ended-HasShut user r p (some (c, w)) h = (concludes_lem user r p.printed, h)

  leave-Ended :
      (user : String) (o : Option (Result (Unit {0}) × Process Line W))
      → StaysUsable o
      → Returns
          (λ d.
            (r : Result (Unit {0})) × (p : Process Line W) × (o ≡ some (r, p))
            × Concludes user r d.exit p.printed d.printed
            × HasShut p.client d.client)
          (leave out user o)
  leave-Ended user none h = absurd h
  leave-Ended user (some (r, p)) u =
      Returns-weaken _ _ (leave out user (some (r, p))) (λ d (e, shut). (r, p, refl, e, shut))
        (ended-HasShut user r p (close_client out p.client p.world)
          (close_client-IsShut out p.client p.world u.live u.valid))

  with_client-Ended :
      (m : Result Client) (env : Environ) (w : W)
      → Ensures IsUsable m
      → Returns (Ended [] m env w) (with_client out m env w)
  with_client-Ended (raised (config_error e)) env w u = (refl, refl, refl, refl)
  with_client-Ended (raised (api_error e)) env w u = (refl, refl, refl, refl)
  with_client-Ended (raised (other_error e)) env w u = (refl, refl, refl, refl)
  with_client-Ended (ok c) env w u =
      let user = user_of env in
      let feed = text_or_empty (getenv "INTEMPT_FEED_ID" env) in
      let p : Process Line W = record { client = c; world = w; printed = [] } in
      leave-Ended user (calls out user feed p) (calls-Keeps user feed p u)

  unless_missing-Ended :
      (names : List String) (logger : Value) (env : Environ) (w : W)
      → Returns
          (Ended names (open_client out.show logger (client_options env)) env w)
          (unless_missing out names logger env w)
  unfolding client_options get
  unless_missing-Ended (name ∷ names) logger env w = (refl, refl, refl, refl)
  unless_missing-Ended [] logger env w =
      with_client-Ended _ env w (open_client-IsUsable out.show logger (client_options env) tt)

  -- `main` of examples/bare/send.py ends, whatever the environment holds and the network does. It ends
  -- with code 2, without a client and with nothing sent, if a required variable is not set or empty,
  -- or if the constructor raises an `IntemptConfigError`, and prints which; another exception of the
  -- constructor escapes. Otherwise its calls end. If none of them raised the code is 0 and the last
  -- line says that everything was sent; an `IntemptConfigError` gives code 2 and its message, an
  -- `IntemptApiError` code 1 and its status, whether it can be retried, and its body; any other
  -- exception escapes and prints nothing more. In each of these cases the client that the calls left
  -- has been closed, its connection released.
  pub main-Ended :
      (logger : Value) (env : Environ) (w : W)
      → Returns
          (Ended
            (missing_of required_names env)
            (open_client out.show logger (client_options env))
            env
            w)
          (main out logger env w)
  unfolding main
  main-Ended logger env w = unless_missing-Ended (missing_of required_names env) logger env w
