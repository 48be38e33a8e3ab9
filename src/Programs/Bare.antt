-- ===== src/Programs/Bare.antt =====
-- examples/bare/send.py: one client, one of each call, then close.
pub mod Ended
mod Tests
use intempt_python.Prelude.{
  ℕ, zero, suc, String, Bool, true, false, Option, none, some, List, [], ◌∷◌, length, if◌then◌else◌,
}
use intempt_python.Errors.{ApiError, Error, config_error, api_error, other_error, retryable}
use intempt_python.Python.Float.{pos, of_ratio}
use intempt_python.Python.Result.{Result, ok, raised}
use intempt_python.Python.Text.{is_nil}
use intempt_python.Python.Value.{
  Value, null, int, float, str, list, dict, Options, Fields, field, end,
}
use intempt_python.Client.Session.{Outside, Client, items, fields, close_client}
use intempt_python.Client.Consent.{accept}
use intempt_python.Client.Flags.{FlagContext, string_variation}
use intempt_python.Client.AllFlags.{Flags, all_flags}
use intempt_python.Client.Recommend.{Recommendation, recommend}
use intempt_python.Client.Writes.{
  Write, track_call, identify_call, group_call, product_viewed_call, added_to_cart_call,
  ordered_call, consent_call,
}
use intempt_python.Programs.Process.{
  Environ, getenv, text_or_empty, or_text, text_value, missing_of, Exit, code, escapes, Process,
  Action, return, print, call_all, read, open_client, ◌>>=◌, ◌>>◌,
}

-- What `print` writes, by the values that stand in the text.
pub data Line : Type 0 where
  missing_environment : List String → Line
  bad_arguments : String → Line
  variation_line : Value → Line
  flags_line : ℕ → List String → Line
  feed_line : Value → Line
  feed_unavailable : String → Line
  api_failed : Option ℕ → Bool → Option String → Line
  sent_line : String → Line

-- The process at its end; `client` is the one that was constructed, if it came so far.
pub record Done (W : Type 0) : Type 0 where
  pub exit : Exit
  pub client : Option Client
  pub world : W
  pub printed : List Line

abbrev pub required_names : List String
required_names = "INTEMPT_ORG" ∷ "INTEMPT_PROJECT" ∷ "INTEMPT_API_KEY" ∷ []

-- `os.environ.get("INTEMPT_USER_ID", "bare-sample@example.com")`
abbrev user_or_default : Option String → String
user_or_default none = "bare-sample@example.com"
user_or_default (some s) = s

unfoldable pub user_of : Environ → String
user_of env = user_or_default (getenv "INTEMPT_USER_ID" env)

-- The arguments of the constructor.
unfoldable pub client_options : Environ → Options
client_options env =
    ("org", text_value (getenv "INTEMPT_ORG" env))
    ∷ ("project", text_value (getenv "INTEMPT_PROJECT" env))
    ∷ ("api_key", text_value (getenv "INTEMPT_API_KEY" env))
    ∷ ("source_id", text_value (getenv "INTEMPT_SOURCE_ID" env))
    ∷ ("host", str (or_text "api.intempt.com" (getenv "INTEMPT_HOST" env)))
    ∷ ("scheme", str (or_text "https" (getenv "INTEMPT_SCHEME" env)))
    ∷ []

-- `', '.join(flags)`, which raises where a key is no text.
unfoldable pub joined : Flags → Result (List String)
joined [] = ok []
joined ((str s, v) ∷ rest) = elim (joined rest) [ raised e ↦ raised e | ok names ↦ ok (s ∷ names) ]
joined ((k, v) ∷ rest) = raised (other_error "TypeError")

module _ {W : Type 0} where
  abbrev print_joined : ℕ → Result (List String) → Action Line W (Unit {0})
  print_joined n (raised e) p = some (raised e, p)
  print_joined n (ok names) p = print (flags_line n names) p

  abbrev pub print_flags : Flags → Action Line W (Unit {0})
  print_flags flags = print_joined (length flags) (joined flags)

  -- The `try` around `recommend`, whose `except` is for an `IntemptApiError` alone.
  abbrev pub print_feed :
      Option (Result Value × Process Line W) → Option (Result (Unit {0}) × Process Line W)
  print_feed none = none
  print_feed (some (ok feed, p)) = print (feed_line feed) p
  print_feed (some (raised (api_error e), p)) = print (feed_unavailable e.message) p
  print_feed (some (raised e, p)) = some (raised e, p)

abbrev ids_of : String → Options
ids_of user = ("user_id", str user) ∷ []

-- The first seven calls, in order.
unfoldable pub writes_of : String → List Write
writes_of user =
    identify_call (("user_id", str user) ∷ ("traits", dict (field "plan" (str "pro") end)) ∷ [])
    ∷ track_call (str "purchase") (
        ("user_id", str user)
        ∷ (
          "properties",
          dict (field "total" (float (of_ratio false 9999 100)) (field "currency" (str "USD") end)),
        )
        ∷ [])
    ∷ group_call (str "acme-inc")
        (("user_id", str user) ∷ ("attributes", dict (field "tier" (str "enterprise") end)) ∷ [])
    ∷ product_viewed_call (str "sku-1") (ids_of user)
    ∷ added_to_cart_call (str "sku-1") (int (pos 2)) (ids_of user)
    ∷ ordered_call
        (list (
          items
            (dict (field "product_id" (str "sku-1") (field "quantity" (int (pos 2)) end)) ∷ [])))
        (ids_of user)
    ∷ consent_call accept (("user_id", str user) ∷ ("category", str "marketing") ∷ [])
    ∷ []

abbrev pub context_of : String → FlagContext
context_of user = record {
  user_id = str user;
  profile_id = str "device-abc";
  session_id = str "session-abc";
}

module _ {W : Type 0} (out : Outside W) where
  abbrev pub feed_request : String → String → Recommendation
  feed_request user feed = record {
    feed_id = str feed;
    fields = list (items (str "id" ∷ []));
    user_id = str user;
    account_id = null;
    limit = int (pos 3);
    product_id = null;
  }

  -- `if feed_id:`
  unfoldable pub show_feed : String → String → Action Line W (Unit {0})
  show_feed user feed p =
      if is_nil feed
      then return tt p
      else print_feed (read (recommend out (feed_request user feed)) p)

  unfoldable pub show_variation : String → Action Line W (Unit {0})
  show_variation user =
      read (string_variation out (str "pricing_cta") (some (context_of user)) (str "Get started"))
      >>= λ cta. print (variation_line cta)

  unfoldable pub show_flags : String → Action Line W (Unit {0})
  show_flags user = read (all_flags out (some (context_of user))) >>= print_flags

  -- The body of the `try` under `with client`.
  unfoldable pub calls : String → String → Action Line W (Unit {0})
  calls user feed =
      call_all out (writes_of user)
      >> (show_variation user >> (show_flags user >> show_feed user feed))

  -- The `return` of each `except`, and of the end.
  abbrev pub judge : Result (Unit {0}) → Exit
  judge (ok u) = code 0
  judge (raised (config_error m)) = code 2
  judge (raised (api_error e)) = code 1
  judge (raised (other_error name)) = escapes (other_error name)

  abbrev pub report : String → Result (Unit {0}) → List Line → List Line
  report user (ok u) printed = sent_line user ∷ printed
  report user (raised (config_error m)) printed = bad_arguments m ∷ printed
  report user (raised (api_error e)) printed = api_failed e.status (retryable e) e.body ∷ printed
  report user (raised (other_error name)) printed = printed

  -- The client is closed on the way out of `with`, however its body ended.
  abbrev pub ended : Exit → List Line → Option (Client × W) → Option (Done W)
  ended exit printed none = none
  ended exit printed (some (c, w)) =
      some (record { exit = exit; client = some c; world = w; printed = printed })

  abbrev pub leave : String → Option (Result (Unit {0}) × Process Line W) → Option (Done W)
  leave user none = none
  leave user (some (r, p)) =
      ended (judge r) (report user r p.printed) (close_client out p.client p.world)

  abbrev pub stopped_early : Exit → List Line → W → Option (Done W)
  stopped_early exit printed w =
      some (record { exit = exit; client = none; world = w; printed = printed })

  abbrev pub with_client : Result Client → Environ → W → Option (Done W)
  with_client (raised (config_error m)) env w = stopped_early (code 2) (bad_arguments m ∷ []) w
  with_client (raised e) env w = stopped_early (escapes e) [] w
  with_client (ok c) env w = leave (user_of env) (
      calls (user_of env) (text_or_empty (getenv "INTEMPT_FEED_ID" env))
        (record { client = c; world = w; printed = [] }))

  abbrev pub unless_missing : List String → Value → Environ → W → Option (Done W)
  unless_missing [] logger env w =
      with_client (open_client out.show logger (client_options env)) env w
  unless_missing (name ∷ names) logger env w =
      stopped_early (code 2) (missing_environment (name ∷ names) ∷ []) w

  -- `main`, where `logger` is what `logging.getLogger` returns.
  unfoldable pub main : Value → Environ → W → Option (Done W)
  main logger env w = unless_missing (missing_of required_names env) logger env w
