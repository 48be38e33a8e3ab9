-- ===== src/Client/Flags/Typed.antt =====
-- What the typed flag reads return.
use intempt_python.Prelude.{String, Bool, true, false, ◌≡◌, ◌⊎◌, refl, if◌then◌else◌}
use intempt_python.Config.Resolve.{float_of}
use intempt_python.Python.Result.{Result, ok, ◌>>=◌}
use intempt_python.Python.Value.{Value, bool, int, float, str, dict}
use intempt_python.Client.Session.{Outside, Session}
use intempt_python.Client.Flags.{FlagDetail, map_result}
use intempt_python.Client.Flags.Variation.{Offers}

-- The types of the four typed reads.
abbrev pub is_bool : Value → Bool
is_bool (bool b) = true
is_bool v = false

abbrev pub is_str : Value → Bool
is_str (str s) = true
is_str v = false

-- A number, less the two values of `bool`.
abbrev pub is_number : Value → Bool
is_number (int i) = true
is_number (float x) = true
is_number v = false

abbrev pub is_dict : Value → Bool
is_dict (dict fs) = true
is_dict v = false

-- `float(v)`
abbrev pub as_float : Value → Result Value
as_float v = float_of v >>= λ x. ok (float x)

-- A value of the type is handed out as `keep` makes it; any other value gives the default.
abbrev pub kept_or : (Value → Bool) → (Value → Result Value) → Value → Value → Result Value
kept_or test keep default v = if test v then keep v else ok default

-- Of what the service offers for the key, a read hands out `keep` of a value of its type, and the
-- default in place of a value of another type; where nothing is offered the default is read.
abbrev pub ReadsTyped :
    (Value → Bool) → (Value → Result Value) → String → Value → Result Value → Result Value → Type 0
ReadsTyped test keep key default answer m =
    ((v : Value) × Offers key answer v × (test v ≡ true) × (m ≡ keep v))
    ⊎ (((v : Value) × Offers key answer v × (test v ≡ false) × (m ≡ ok default))
        ⊎ (((v : Value) → ¬ Offers key answer v) × (m ≡ kept_or test keep default default)))

module _ {W : Type 0} (out : Outside W) where
  mapped :
      (f : FlagDetail → Result Value) (r : Result FlagDetail × Session × W)
      → (map_result out f r).0 ≡ (r.0 >>= f)
  mapped f (m, s, w) = refl
