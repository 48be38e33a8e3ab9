-- ===== src/Client/Consent.antt =====
-- intempt/_client.py: `Consent`.
use Prim.Native.String.{◌++◌}
use intempt_python.Prelude.{◌/◌, String, ◌&&◌, ◌||◌, not, Option, [], ◌∷◌, if◌then◌else◌}
use intempt_python.Config.Record.{project_path}
use intempt_python.Errors.{config_error}
use intempt_python.Python.Float.{ℤ, pos, negsuc}
use intempt_python.Python.Result.{Result, ok, raised, ◌>>◌, raise_if}
use intempt_python.Python.Value.{Value, null, int, str, dict, Options, get, get_or, present, truthy}
use intempt_python.Client.Session.{
  Outside, Session, is_opted_in, assert_open, after_post, discard, fields,
}
use intempt_python.Client.Events.{millis_of}
use intempt_python.Client.Flags.{source_value}
use intempt_python.Transport.Post.{post}
use intempt_python.Util.{compact}

pub data ConsentAction : Type 0 where
  accept reject : ConsentAction

abbrev pub action_text : ConsentAction → String
action_text accept = "accept"
action_text reject = "reject"

abbrev pub method_name : ConsentAction → String
method_name accept = "consent.grant"
method_name reject = "consent.revoke"

-- `millis // 1000`, which rounds down.
abbrev pub seconds_of : ℤ → ℤ
seconds_of (pos n) = pos (n / 1000)
seconds_of (negsuc n) = negsuc (n / 1000)

unfoldable pub consent_body : ConsentAction → Options → Option String → ℤ → Value
consent_body action options source_id millis = dict (
    fields (
      compact (
        ("action", str (action_text action))
        ∷ ("timestamp", int (seconds_of millis))
        ∷ ("userId", get "user_id" options)
        ∷ ("profileId", get "profile_id" options)
        ∷ ("category", get "category" options)
        ∷ ("validUntil", get_or "valid_until" (str "unlimited") options)
        ∷ ("email", get "email" options)
        ∷ ("message", get "message" options)
        ∷ ("reason", get "reason" options)
        ∷ ("method", get "method" options)
        ∷ ("deviceInfo", get "device_info" options)
        ∷ ("source", str "Python tracker")
        ∷ ("sourceId", (if truthy (get "profile_id" options) then source_value source_id else null))
        ∷ [])))

-- The two checks before the gate of the opt-out.
unfoldable pub check_consent : ConsentAction → Options → Session → Result (Unit {0})
check_consent action options s = do
  raise_if (not (present (get "user_id" options) || present (get "profile_id" options)))
      (config_error (method_name action ++ ": user_id must be a non-empty string"))
  assert_open s

-- The check after it.
unfoldable pub check_source : Options → Option String → Result (Unit {0})
check_source options source_id =
    raise_if (truthy (get "profile_id" options) && not (truthy (source_value source_id))) (
      config_error
        "consent: source_id must be configured to record consent by profile_id; pass user_id instead, or set source_id on the client")

module _ {W : Type 0} (out : Outside W) where
  abbrev pub post_consent :
      ConsentAction → Options → Session → Result ℤ × W → Result (Unit {0}) × Session × W
  post_consent action options s (raised e, w) = (raised e, s, w)
  post_consent action options s (ok millis, w) = discard out (
      after_post out s (
        post out.net (project_path out.show s.config "/consents/data")
          (consent_body action options s.config.source_id millis) s.transport w))

  abbrev pub record_sourced :
      Result (Unit {0}) → ConsentAction → Options → Session → W → Result (Unit {0}) × Session × W
  record_sourced (raised e) action options s w = (raised e, s, w)
  record_sourced (ok u) action options s w =
      post_consent action options s (millis_of out (get "timestamp" options) w)

  abbrev pub record_checked :
      Result (Unit {0}) → ConsentAction → Options → Session → W → Result (Unit {0}) × Session × W
  record_checked (raised e) action options s w = (raised e, s, w)
  record_checked (ok u) action options s w =
      if is_opted_in s
      then record_sourced (check_source options s.config.source_id) action options s w
      else (ok tt, s, w)

  -- `Consent._record`; `grant` and `revoke` are its two actions.
  unfoldable pub record_consent :
      ConsentAction → Options → Session → W → Result (Unit {0}) × Session × W
  record_consent action options s w =
      record_checked (check_consent action options s) action options s w
