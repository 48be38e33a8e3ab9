-- ===== src/Client/AllFlags.antt =====
-- intempt/_client.py: `all_flags` and `wait_for_initialization`.
pub mod Dictionary
pub mod Agree
mod Tests
use text.Mathlib.Text.{◌==◌}
use intempt_python.Prelude.{
  ℕ, ◌+◌, ◌*◌, ◌^◌, Bool, true, false, ◌&&◌, ◌||◌, not, Option, none, some, List, [], ◌∷◌, All, ◌≡◌,
  arith, if-cases, if◌then◌else◌,
}
use intempt_python.Prelude.{◌==◌ as eq_ℕ}
use intempt_python.Errors.{other_error}
use intempt_python.Python.Float.{pos, negsuc, infinity, neg_infinity, finite}
use intempt_python.Python.Result.{Result, ok, raised, ◌>>=◌, ◌>>◌, Ensures, bind-Ensured}
use intempt_python.Python.Value.{
  Value, null, bool, int, float, str, list, dict, get, is_null, truthy, fields_of,
}
use intempt_python.Client.Session.{Outside, Session, assert_open}
use intempt_python.Client.Flags.{FlagContext, assert_flag_context, choose_or_empty}

-- A finite number, as in `Float`.
abbrev pub Number : Type 0
Number = Bool × ℕ × ℕ

abbrev pub number_of : Value → Option Number
number_of (bool true) = some (false, 1, 0)
number_of (bool false) = some (false, 0, 0)
number_of (int (pos n)) = some (false, n, 0)
number_of (int (negsuc n)) = some (true, n + 1, 0)
number_of (float (finite negative n k)) = some (negative, n, k)
number_of v = none

abbrev same_sign : Bool → Bool → Bool
same_sign true true = true
same_sign false false = true
same_sign a b = false

abbrev pub same_number : Option Number → Option Number → Bool
same_number (some (a, n, k)) (some (b, m, j)) =
    eq_ℕ (n * 2 ^ j) (m * 2 ^ k) && (eq_ℕ n 0 || same_sign a b)
same_number x y = false

-- Two keys of a dictionary are one: texts by their characters, numbers by their value.
unfoldable pub same_key : Value → Value → Bool
same_key (str s) (str t) = s == t
same_key (float infinity) (float infinity) = true
same_key (float neg_infinity) (float neg_infinity) = true
same_key v w = same_number (number_of v) (number_of w)

abbrev pub Flags : Type 0
Flags = List (Value × Value)

-- `out[name] = body`
unfoldable pub put : Value → Value → Flags → Flags
put name body [] = (name, body) ∷ []
put name body ((k, v) ∷ rest) =
    let others = put name body rest in if same_key k name then (k, body) ∷ rest else (k, v) ∷ others

-- A list or a dictionary is no key: a `TypeError`.
abbrev pub hashable : Value → Bool
hashable (list vs) = false
hashable (dict fs) = false
hashable v = true

abbrev pub store : Value → Value → Flags → Result Flags
store name body out =
    if truthy name && not (is_null body)
    then (if hashable name then ok (put name body out) else raised (other_error "TypeError"))
    else ok out

-- The loop of `all_flags`.
unfoldable pub collect : List Value → Flags → Result Flags
collect [] out = ok out
collect (dict fs ∷ choices) out =
    store (get "name" (fields_of fs)) (get "body" (fields_of fs)) out >>= collect choices
collect (v ∷ choices) out = raised (other_error "AttributeError")

module _ {W : Type 0} (out : Outside W) where
  abbrev pub gather : List Value × Session × W → Result Flags × Session × W
  gather (choices, s, w) = (collect choices [], s, w)

  abbrev pub all_checked : Result FlagContext → Session → W → Result Flags × Session × W
  all_checked (raised e) s w = (raised e, s, w)
  all_checked (ok context) s w = gather (choose_or_empty out context null s w)

  unfoldable pub all_flags : Option FlagContext → Session → W → Result Flags × Session × W
  all_flags context s w =
      all_checked (assert_open s >> assert_flag_context s context "all_flags") s w

-- `wait_for_initialization`
unfoldable pub wait_for_initialization : Option ℕ → Session → Result (Unit {0})
wait_for_initialization timeout_ms s = assert_open s

-- What `all_flags` lists: a key that is truthy, and a body that is not `None`.
abbrev pub IsListed : Value × Value → Type 0
IsListed (k, v) = (truthy k ≡ true) × (is_null v ≡ false)

put-IsListed :
    (name body : Value) (flags : Flags)
    → IsListed (name, body)
    → All IsListed flags
    → All IsListed (put name body flags)
unfolding put
put-IsListed name body [] h all = (h, tt)
put-IsListed name body ((k, v) ∷ rest) h all =
    if-cases (All IsListed) (same_key k name) ((k, body) ∷ rest) _ (λ same. ((all.0.0, h.1), all.1))
      (λ other. (all.0, put-IsListed name body rest h all.1))

store-IsListed :
    (name body : Value) (flags : Flags)
    → All IsListed flags
    → Ensures (All IsListed) (store name body flags)
store-IsListed name body flags all =
    if-cases (Ensures (All IsListed)) (truthy name && not (is_null body)) _ _
      (λ kept.
        if-cases (Ensures (All IsListed)) (hashable name) _ _
          (λ h. put-IsListed name body flags (ground arith) all) (λ h. tt))
      (λ skipped. all)

collect-IsListed :
    (choices : List Value) (flags : Flags)
    → All IsListed flags
    → Ensures (All IsListed) (collect choices flags)
unfolding collect
collect-IsListed [] flags all = all
collect-IsListed (dict fs ∷ choices) flags all =
    bind-Ensured (All IsListed) (All IsListed)
      (store (get "name" (fields_of fs)) (get "body" (fields_of fs)) flags) (collect choices)
      (store-IsListed _ _ flags all) (λ stored. collect-IsListed choices stored)
collect-IsListed (_ ∷ choices) flags all = tt

module _ {W : Type 0} (out : Outside W) where
  gather-IsListed : (r : List Value × Session × W) → Ensures (All IsListed) (gather out r).0
  gather-IsListed (choices, s, w) = collect-IsListed choices [] tt

  checked-IsListed :
      (m : Result FlagContext) (s : Session) (w : W)
      → Ensures (All IsListed) (all_checked out m s w).0
  checked-IsListed (raised e) s w = tt
  checked-IsListed (ok context) s w = gather-IsListed (choose_or_empty out context null s w)

  -- Whatever the service answers, `all_flags` lists no key without a body: of each entry that it
  -- returns the body is not `None` and the key is truthy.
  pub all_flags-IsListed :
      (context : Option FlagContext) (s : Session) (w : W)
      → Ensures (All IsListed) (all_flags out context s w).0
  unfolding all_flags
  all_flags-IsListed context s w =
      checked-IsListed (assert_open s >> assert_flag_context s context "all_flags") s w
