-- ===== src/Python/Value.antt =====
-- The values of the language: what a caller may pass, and what `json.loads` may return.
use Prim.Native.Char.{Char}
use Prim.Native.String.{◌++◌}
use Prim.Native.String.{◌∷◌ as char_on}
use text.Mathlib.Text.{◌==◌}
use intempt_python.Prelude.{
  ℕ, zero, suc, ◌+◌, ◌/◌, ◌%◌, String, Bool, true, false, ◌||◌, not, Option, List, [], ◌∷◌,
  if◌then◌else◌,
}
use intempt_python.Prelude.{◌==◌ as eq_ℕ}
use intempt_python.Config.Options.{BatchOptions}
use intempt_python.Python.Float.{ℤ, pos, negsuc, Float, finite}
use intempt_python.Python.Text.{is_nil, is_blank}

-- A `datetime`: the microseconds from the epoch to its wall clock reading, and the offset from UTC in
-- microseconds if it is aware.
pub record DateTime : Type 0 where
  pub wall : ℤ
  pub offset : Option ℤ

-- `list` stands for every `Sequence` but text and bytes, `dict` for every `Mapping`, `object` for an
-- instance of any other class: the class's name, and the names of its callable attributes.
mutual
  pub data Value : Type 0 where
    null : Value
    bool : Bool → Value
    int : ℤ → Value
    float : Float → Value
    str : String → Value
    bytes : String → Value
    datetime : DateTime → Value
    batch_options : BatchOptions → Value
    list : Items → Value
    dict : Fields → Value
    object : String → List String → Value

  pub data Items : Type 0 where
    nil : Items
    cons : Value → Items → Items

  pub data Fields : Type 0 where
    end : Fields
    field : String → Value → Fields → Fields

-- Keyword arguments, and the entries of a mapping, in order.
abbrev pub Options : Type 0
Options = List (String × Value)

abbrev pub items_of : Items → List Value
items_of nil = []
items_of (cons v vs) = v ∷ items_of vs

abbrev pub fields_of : Fields → Options
fields_of end = []
fields_of (field k v rest) = (k, v) ∷ fields_of rest

-- `options.get(key)`, where `None` and a missing key are one.
unfoldable pub get : String → Options → Value
get key [] = null
get key ((k, v) ∷ rest) = if k == key then v else get key rest

-- `options.get(key, default)`
unfoldable pub get_or : String → Value → Options → Value
get_or key default [] = default
get_or key default ((k, v) ∷ rest) = if k == key then v else get_or key default rest

-- `key in options`
unfoldable pub has : String → Options → Bool
has key [] = false
has key ((k, v) ∷ rest) = k == key || has key rest

-- `options.pop(key, None)`, the rest
unfoldable pub without : String → Options → Options
without key [] = []
without key ((k, v) ∷ rest) =
    let others = without key rest in if k == key then others else (k, v) ∷ others

abbrev pub is_null : Value → Bool
is_null null = true
is_null v = false

-- `type(value).__name__`
abbrev pub type_name : Value → String
type_name null = "NoneType"
type_name (bool b) = "bool"
type_name (int i) = "int"
type_name (float x) = "float"
type_name (str s) = "str"
type_name (bytes s) = "bytes"
type_name (datetime d) = "datetime"
type_name (batch_options o) = "BatchOptions"
type_name (list vs) = "list"
type_name (dict fs) = "dict"
type_name (object name methods) = name

-- `isinstance(value, str) and bool(value.strip())`, the `_present` of _client.py and _flags.py.
unfoldable pub present : Value → Bool
present (str s) = not (is_blank s)
present v = false

abbrev is_zero_float : Float → Bool
is_zero_float (finite negative n k) = eq_ℕ n 0
is_zero_float x = false

-- `bool(value)`; an `object` has neither `__bool__` nor `__len__`.
unfoldable pub truthy : Value → Bool
truthy null = false
truthy (bool b) = b
truthy (int (pos n)) = not (eq_ℕ n 0)
truthy (int (negsuc n)) = true
truthy (float x) = not (is_zero_float x)
truthy (str s) = not (is_nil s)
truthy (bytes s) = not (is_nil s)
truthy (datetime d) = true
truthy (batch_options o) = true
truthy (list nil) = false
truthy (list (cons v vs)) = true
truthy (dict end) = false
truthy (dict (field k v fs)) = true
truthy (object name methods) = true

unfoldable pub digit : ℕ → Char
digit zero = "0"
digit (suc zero) = "1"
digit (suc (suc zero)) = "2"
digit (suc (suc (suc zero))) = "3"
digit (suc (suc (suc (suc zero)))) = "4"
digit (suc (suc (suc (suc (suc zero))))) = "5"
digit (suc (suc (suc (suc (suc (suc zero)))))) = "6"
digit (suc (suc (suc (suc (suc (suc (suc zero))))))) = "7"
digit (suc (suc (suc (suc (suc (suc (suc (suc zero)))))))) = "8"
digit n = "9"

-- Decimal digits in front of `rest`; any fuel from the number on is enough.
unfoldable pub decimal_fuel : ℕ → ℕ → String → String
decimal_fuel zero n rest = char_on (digit (n % 10)) rest
decimal_fuel (suc f) n rest =
    let more = decimal_fuel f (n / 10) (char_on (digit (n % 10)) rest) in
    if eq_ℕ (n / 10) 0 then char_on (digit (n % 10)) rest else more

-- `str(i)`
unfoldable pub decimal : ℤ → String
unfolding digit decimal_fuel
decimal (pos n) = decimal_fuel n n ""
decimal (negsuc n) = "-" ++ decimal_fuel (n + 1) (n + 1) ""

-- `str(value)`, exact for `None`, `bool`, `int` and `str`; `show` is the text of any other value.
unfoldable pub str_of : (Value → String) → Value → String
str_of show null = "None"
str_of show (bool true) = "True"
str_of show (bool false) = "False"
str_of show (int i) = decimal i
str_of show (str s) = s
str_of show v = show v
