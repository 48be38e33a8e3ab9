-- ===== src/Client/Flags.antt =====
-- intempt/_flags.py, and the flag methods of intempt/_client.py.
pub mod Variation
pub mod Servable
pub mod Typed
use Prim.Native.String.{◌++◌}
use text.Mathlib.Text.{◌==◌}
use intempt_python.Prelude.{
  ℕ, String, Bool, true, false, ◌&&◌, ◌||◌, not, Option, none, some, List, [], ◌∷◌, if◌then◌else◌,
}
use intempt_python.Config.Record.{project_path}
use intempt_python.Errors.{Error, config_error, other_error}
use intempt_python.Python.Float.{Float, of_int, is_finite}
use intempt_python.Python.Result.{Result, ok, raised, ◌>>=◌, ◌>>◌, raise_if}
use intempt_python.Python.Text.{is_nil, is_name}
use intempt_python.Python.Value.{
  Value, null, bool, int, float, str, list, dict, Items, nil, cons, Fields, end, field, Options,
  get, fields_of, items_of, is_null, present, truthy,
}
use intempt_python.Client.Session.{
  Outside, Session, assert_open, warn, flags_failed, after_post, items, fields,
}
use intempt_python.Transport.Post.{post}
use intempt_python.Util.{non_blank, compact}

pub record FlagContext : Type 0 where
  pub user_id : Value
  pub profile_id : Value
  pub session_id : Value

abbrev present_text : Option String → Bool
present_text none = false
present_text (some s) = present (str s)

-- `FlagContext.has_identity`
unfoldable pub has_identity : FlagContext → Option String → Bool
has_identity context source_id =
    present context.user_id || present context.profile_id && present_text source_id

-- `FlagDetail`
pub record FlagDetail : Type 0 where
  pub value : Value
  pub reason : Value

-- `_assert_flag_key`, with the key that it checked; `KEY_PATTERN.match(key)` is `is_name key`.
-- The message quotes the key as `repr` quotes a text without quotes, backslashes and control characters.
unfoldable pub assert_flag_key : Value → String → Result String
assert_flag_key key method = do
  name ← non_blank key method "key"
  raise_if (not (is_name name)) (
      config_error (
        method ++ ": key must match ^[a-zA-Z0-9_-]+$ "
        ++ "(letters, digits, underscore, hyphen); got '" ++ name ++ "'"))
  ok name

-- `_assert_flag_context`: `none` is anything that is not a `FlagContext`.
unfoldable pub assert_flag_context : Session → Option FlagContext → String → Result FlagContext
assert_flag_context s none method =
    raised (config_error (method ++ ": context must be a FlagContext"))
assert_flag_context s (some context) method =
    if has_identity context s.config.source_id
    then ok context
    else raised (
        config_error (
          method
          ++ ": context needs either user_id, or profile_id together with a source_id configured on the client"))

-- `str(source_id) if source_id else None`
abbrev pub source_value : Option String → Value
source_value none = null
source_value (some s) = if is_nil s then null else str s

-- The body of the request of `_choose_or_empty`.
unfoldable pub choose_body : Session → FlagContext → Value → Value
choose_body s context names =
    let identification : Options = compact (
      ("userId", context.user_id)
      ∷ ("profileId", context.profile_id)
      ∷ ("sourceId", source_value s.config.source_id)
      ∷ []) in
    dict (
      fields (
        compact (
          ("identification", dict (fields identification))
          ∷ ("names", names)
          ∷ ("device", str "all")
          ∷ ("sessionId", context.session_id)
          ∷ [])))

abbrev pub list_or_empty : Value → List Value
list_or_empty (list vs) = items_of vs
list_or_empty v = []

-- The choices of a response; `json.loads` makes every sequence a `list`.
abbrev pub choices_of : Value → List Value
choices_of (dict fs) = list_or_empty (get "choices" (fields_of fs))
choices_of v = []

abbrev pub or_unanswered : Value → Value
or_unanswered v = if truthy v then v else str "off"

-- `choice.get("name") == key`
abbrev pub is_key : String → Value → Bool
is_key key (str s) = s == key
is_key key v = false

abbrev pub served : Value → Value → Value
served default null = default
served default v = v

-- The loop of `_variation_detail`; `choice.get` of what is no mapping is an `AttributeError`.
unfoldable pub find_choice : String → Value → List Value → Result FlagDetail
find_choice key default [] = ok (record { value = default; reason = str "off" })
find_choice key default (dict fs ∷ choices) =
    let choice = fields_of fs in
    if is_key key (get "name" choice)
    then ok (record {
      value = served default (get "body" choice);
      reason = or_unanswered (get "reason" choice);
    })
    else find_choice key default choices
find_choice key default (v ∷ choices) = raised (other_error "AttributeError")

-- The typed reads: each keeps the value or falls back to the default.
unfoldable pub bool_or : Value → Value → Result Value
bool_or default (bool b) = ok (bool b)
bool_or default v = ok default

unfoldable pub string_or : Value → Value → Result Value
string_or default (str s) = ok (str s)
string_or default v = ok default

unfoldable pub number_or : Value → Value → Result Value
number_or default (int i) =
    if is_finite (of_int i) then ok (float (of_int i)) else raised (other_error "OverflowError")
number_or default (float x) = ok (float x)
number_or default v = ok default

unfoldable pub json_or : Value → Value → Result Value
json_or default (dict fs) = ok (dict fs)
json_or default v = ok default

-- The three checks of `_variation_detail`.
unfoldable pub check_flag_call :
    Value → Option FlagContext → Session → Result (String × FlagContext)
check_flag_call key context s = do
  assert_open s
  name ← assert_flag_key key "variation"
  known ← assert_flag_context s context "variation"
  ok (name, known)

module _ {W : Type 0} (out : Outside W) where
  -- The `try` of `_choose_or_empty`, and what follows.
  abbrev pub choices_or_empty : Result Value × Session × W → List Value × Session × W
  choices_or_empty (ok response, s, w) = (choices_of response, s, w)
  choices_or_empty (raised e, s, w) = ([], warn flags_failed s, w)

  -- The call of `post` in `_choose_or_empty`.
  unfoldable pub choose : FlagContext → Value → Session → W → Result Value × Session × W
  choose context names s w = after_post out s (
      post out.net (project_path out.show s.config "/optimization/choose-api")
        (choose_body s context names) s.transport w)

  unfoldable pub choose_or_empty : FlagContext → Value → Session → W → List Value × Session × W
  choose_or_empty context names s w = choices_or_empty (choose context names s w)

  abbrev pub pick : String → Value → List Value × Session × W → Result FlagDetail × Session × W
  pick key default (choices, s, w) = (find_choice key default choices, s, w)

  abbrev pub answer_call :
      Result (String × FlagContext) → Value → Session → W → Result FlagDetail × Session × W
  answer_call (raised e) default s w = (raised e, s, w)
  answer_call (ok (key, context)) default s w =
      pick key default (choose_or_empty context (list (items (str key ∷ []))) s w)

  -- `_variation_detail`
  unfoldable pub variation_detail :
      Value → Option FlagContext → Value → Session → W → Result FlagDetail × Session × W
  variation_detail key context default s w = answer_call (check_flag_call key context s) default s w

  abbrev pub map_result :
      (FlagDetail → Result Value) → Result FlagDetail × Session × W → Result Value × Session × W
  map_result f (m, s, w) = (m >>= f, s, w)

  unfoldable pub variation :
      Value → Option FlagContext → Value → Session → W → Result Value × Session × W
  variation key context default s w =
      map_result (λ d. ok d.value) (variation_detail key context default s w)

  abbrev typed :
      (Value → Value → Result Value)
      → Value
      → Option FlagContext
      → Value
      → Session
      → W
      → Result Value × Session × W
  typed keep key context default s w =
      map_result (λ d. keep default d.value) (variation_detail key context default s w)

  unfoldable pub bool_variation :
      Value → Option FlagContext → Value → Session → W → Result Value × Session × W
  bool_variation = typed bool_or

  unfoldable pub string_variation :
      Value → Option FlagContext → Value → Session → W → Result Value × Session × W
  string_variation = typed string_or

  unfoldable pub number_variation :
      Value → Option FlagContext → Value → Session → W → Result Value × Session × W
  number_variation = typed number_or

  unfoldable pub json_variation :
      Value → Option FlagContext → Value → Session → W → Result Value × Session × W
  json_variation = typed json_or
