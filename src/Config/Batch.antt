-- ===== src/Config/Batch.antt =====
-- intempt/_config.py: `BatchOptions(...)` and its `__post_init__`.
use text.Mathlib.Text.{◌==◌}
use intempt_python.Prelude.{
  ℕ, zero, suc, String, Bool, true, false, ◌&&◌, ◌||◌, not, Option, none, some, [], ◌∷◌, arith, ltb,
  ◌≡◌,
}
use intempt_python.Errors.{config_error, other_error}
use intempt_python.Config.Options.{BatchOptions, AreValid}
use intempt_python.Python.Float.{ℤ, pos, negsuc}
use intempt_python.Python.Value.{
  Value, bool, int, float, batch_options, dict, null, Options, fields_of, get_or, truthy,
}
use intempt_python.Python.Result.{
  Result, ok, raised, ◌>>=◌, ◌>>◌, raise_if, Ensures, bind-Ensures, Ensures-ok, raise_if-Ensures,
}

-- `i < 1`
abbrev pub below_one : ℤ → Bool
below_one (pos zero) = true
below_one (pos (suc n)) = false
below_one (negsuc n) = true

-- `i < j`, `j` at least 1 where it matters
abbrev pub below : ℤ → ℤ → Bool
below (pos m) (pos n) = ltb m n
below (pos m) (negsuc n) = false
below (negsuc m) (pos n) = true
below (negsuc m) (negsuc n) = ltb n m

abbrev pub natural : ℤ → ℕ
natural (pos n) = n
natural (negsuc n) = 0

-- An `int`, of which `bool` is a subclass.
abbrev pub int_of : Value → Option ℤ
int_of (int i) = some i
int_of (bool true) = some (pos 1)
int_of (bool false) = some (pos 0)
int_of v = none

-- A field, where it is compared. Only integers are modelled as sizes: `HasIntegerSizes` excludes a
-- `float`, which Python would compare and keep. Anything else raises in the comparison.
abbrev int_field : Value → Result ℤ
int_field (float x) = raised (other_error "a float as a size is not modelled")
int_field v = elim (int_of v) [ none ↦ raised (other_error "TypeError") | some i ↦ ok i ]

-- The comparisons come in this order, and each raises where its field is no number.
unfoldable pub post_init : Value → Value → Value → Bool → Result BatchOptions
post_init size flush_ms max_queue flush_on_exit = do
  n ← int_field size
  raise_if (below_one n) (config_error "batch.size must be at least 1")
  ms ← int_field flush_ms
  raise_if (below_one ms) (config_error "batch.flush_ms must be at least 1")
  bound ← int_field max_queue
  raise_if (below bound n) (config_error "batch.max_queue must be at least batch.size")
  ok (record {
    size = natural n;
    flush_ms = natural ms;
    max_queue = natural bound;
    flush_on_exit = flush_on_exit;
  })

is_batch_field : String → Bool
is_batch_field name =
    name == "size" || (name == "flush_ms" || (name == "max_queue" || name == "flush_on_exit"))

all_known : Options → Bool
unfolding is_batch_field
all_known [] = true
all_known ((k, v) ∷ rest) = is_batch_field k && all_known rest

-- `BatchOptions(**dict(batch))`
unfoldable pub of_mapping : Options → Result BatchOptions
unfolding all_known post_init
of_mapping fields = do
  raise_if (not (all_known fields)) (other_error "TypeError")
  post_init (get_or "size" (int (pos 50)) fields) (get_or "flush_ms" (int (pos 5000)) fields)
      (get_or "max_queue" (int (pos 10000)) fields)
      (truthy (get_or "flush_on_exit" (bool true) fields))

-- The `batch` option of `resolve_config`.
unfoldable pub resolve_batch : Value → Result (Option BatchOptions)
unfolding of_mapping
resolve_batch null = ok none
resolve_batch (batch_options o) = ok (some o)
resolve_batch (dict fields) = do o ← of_mapping (fields_of fields); ok (some o)
resolve_batch v = raised (config_error "batch must be a BatchOptions or a mapping")

-- The three checks make the fields valid.
checked-AreValid :
    (n ms bound : ℤ) (flush_on_exit : Bool)
    → below_one n ≡ false
    → below_one ms ≡ false
    → below bound n ≡ false
    → AreValid (record {
      size = natural n;
      flush_ms = natural ms;
      max_queue = natural bound;
      flush_on_exit = flush_on_exit;
    })
checked-AreValid n ms bound flush_on_exit h k l = ground arith

-- Where `BatchOptions` is constructed at all, its fields are valid.
pub post_init-AreValid :
    (size flush_ms max_queue : Value) (flush_on_exit : Bool)
    → Ensures AreValid (post_init size flush_ms max_queue flush_on_exit)
unfolding post_init
post_init-AreValid size flush_ms max_queue flush_on_exit =
    bind-Ensures AreValid (int_field size) _ λ n e. raise_if-Ensures AreValid (below_one n) _ _ λ h.
      bind-Ensures AreValid (int_field flush_ms) _ λ ms e'.
        raise_if-Ensures AreValid (below_one ms) _ _ λ k.
          bind-Ensures AreValid (int_field max_queue) _ λ bound e''.
            raise_if-Ensures AreValid (below bound n) _ _
              λ l. checked-AreValid n ms bound flush_on_exit h k l

of_mapping-AreValid : (fields : Options) → Ensures AreValid (of_mapping fields)
unfolding of_mapping
of_mapping-AreValid fields = raise_if-Ensures AreValid (not (all_known fields)) _ _ (λ h.
    post_init-AreValid (get_or "size" (int (pos 50)) fields)
      (get_or "flush_ms" (int (pos 5000)) fields) (get_or "max_queue" (int (pos 10000)) fields)
      (truthy (get_or "flush_on_exit" (bool true) fields)))

abbrev NoFloat : Value → Type 0
NoFloat (float x) = ⊥
NoFloat v = Unit

-- What `batch` may be here: an instance has been constructed before, so that its fields have passed
-- the checks, and no size of a mapping is a `float`.
abbrev pub HasIntegerSizes : Value → Type 0
HasIntegerSizes (batch_options o) = AreValid o
HasIntegerSizes (dict fs) =
    NoFloat (get_or "size" (int (pos 50)) (fields_of fs))
    × (NoFloat (get_or "flush_ms" (int (pos 5000)) (fields_of fs))
        × NoFloat (get_or "max_queue" (int (pos 10000)) (fields_of fs)))
HasIntegerSizes v = Unit

abbrev pub HasValid : Option BatchOptions → Type 0
HasValid none = Unit
HasValid (some o) = AreValid o

pub resolve_batch-HasValid : (v : Value) → HasIntegerSizes v → Ensures HasValid (resolve_batch v)
unfolding resolve_batch
resolve_batch-HasValid (batch_options o) h = h
resolve_batch-HasValid (dict fields) h =
    bind-Ensures HasValid (of_mapping (fields_of fields)) _ (λ o e.
      Ensures-ok AreValid (of_mapping (fields_of fields)) o (of_mapping-AreValid (fields_of fields))
        e)
resolve_batch-HasValid _ h = tt
