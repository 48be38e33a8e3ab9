-- ===== src/Client/Flags/Servable.antt =====
-- Which flag reads make a request.
use Prim.Native.String.{[] as empty, ◌∷◌ as char_on}
use Prim.Native.Char.{Char}
use intempt_python.Prelude.{
  String, Bool, true, false, ◌&&◌, ◌||◌, Option, some, [], ◌∷◌, ◌≡◌, ◌⊎◌, if◌then◌else◌,
}
use intempt_python.Errors.{Error}
use intempt_python.Python.Result.{Result, raised}
use intempt_python.Python.Value.{Value, str, dict, list, Options, get, fields_of, is_null, present}
use intempt_python.Python.Text.{is_name}
use intempt_python.Client.Session.{Outside, Session, items}
use intempt_python.Client.Flags.{FlagContext, FlagDetail, choose, choose_body}

-- Whether the `identification` of a request names a user, or a profile with the source it is from.
abbrev identifies_in : Value → Bool
identifies_in (dict fs) =
    let id = fields_of fs in
    present (get "userId" id) || present (get "profileId" id) && present (get "sourceId" id)
identifies_in v = false

abbrev identifies_of : Value → Bool
identifies_of (dict fs) = identifies_in (get "identification" (fields_of fs))
identifies_of v = false

pub identifies : Value → Bool
identifies v = identifies_of v

-- An entry that `compact` keeps unless it is `None`.
abbrev kept : String → Value → Options → Options
kept k v rest = if is_null v then rest else (k, v) ∷ rest

module _ {W : Type 0} (out : Outside W) where
  -- A flag call that the service can answer: from an open client, with a key of the accepted pattern
  -- and a context, and with a request whose identification names a user, or a profile and its
  -- source.
  pub record IsServable (key : Value) (context : Option FlagContext) (s : Session)
      (checked : String × FlagContext) : Type 0 where
    pub live : s.closed ≡ false
    pub key_text : key ≡ str checked.0
    pub key_named : is_name checked.0 ≡ true
    pub given : context ≡ some checked.1
    pub identified : identifies (choose_body s checked.1 (list (items (str checked.0 ∷ [])))) ≡ true

  -- The call is servable and has made the request for it, or it is not and has changed nothing.
  abbrev pub Decided :
      Value → Option FlagContext → Session → W → Result FlagDetail × Session × W → Type 0
  Decided key context s w r =
      ((name : String) × (known : FlagContext) × IsServable key context s (name, known)
        × (r.1.transport ≡ (choose out known (list (items (str name ∷ []))) s w).1.transport))
      ⊎ (((checked : String × FlagContext) → ¬ IsServable key context s checked)
          × ((e : Error) × (r ≡ (raised e, s, w))))
