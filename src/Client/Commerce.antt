-- ===== src/Client/Commerce.antt =====
-- intempt/_client.py: `Ecommerce` and `_track_lines`.
pub mod Lines
use Prim.Native.String.{◌++◌}
use intempt_python.Prelude.{
  ℕ, zero, suc, ◌+◌, String, Bool, true, false, ◌||◌, not, Option, none, some, List, [], ◌∷◌, map,
  if◌then◌else◌,
}
use intempt_python.Errors.{config_error}
use intempt_python.Python.Float.{ℤ, pos, negsuc}
use intempt_python.Python.Result.{Result, ok, raised, ◌>>=◌, ◌>>◌, raise_if}
use intempt_python.Python.Value.{
  Value, null, int, str, list, dict, Options, get, is_null, items_of, fields_of, decimal, nil, cons,
}
use intempt_python.Client.Session.{Outside, Client, items, fields}
use intempt_python.Client.Events.{submit_built, millis_of}
use intempt_python.Util.{compact, non_blank, require_identifier}

-- One payload item of `_track_lines`.
unfoldable pub line_item : Options → String → ℤ → Options → Value
line_item ids event_id millis line = dict (
    fields (
      compact (
        ("eventId", str event_id)
        ∷ ("timestamp", int millis)
        ∷ ("profileId", get "profile_id" ids)
        ∷ ("userId", get "user_id" ids)
        ∷ ("accountId", get "account_id" ids)
        ∷ ("data", dict (fields line))
        ∷ [])))

-- The event of `_track_lines`: an item for each line, all with one event id.
unfoldable pub lines_event : String → Options → List Options → String → ℤ → Value
lines_event name ids lines event_id millis = dict (
    fields (
      ("name", str name)
      ∷ ("payload", list (items (map (line_item ids event_id millis) lines)))
      ∷ []))

-- `isinstance(quantity, int) and not isinstance(quantity, bool) and quantity > 0`
abbrev pub is_quantity : Value → Bool
is_quantity (int (pos zero)) = false
is_quantity (int (pos (suc n))) = true
is_quantity v = false

-- `products[index]` in a message.
abbrev pub at_product : ℕ → String
at_product index = "ordered: products[" ++ (decimal (pos index) ++ "]")

-- `product.get(key) if isinstance(product, Mapping) else None`
abbrev pub field_of : String → Value → Value
field_of key (dict fs) = get key (fields_of fs)
field_of key v = null

-- One turn of the loop in `ordered`.
unfoldable pub order_line : ℕ → Value → Result Options
order_line index product = do
  product_id ← non_blank (field_of "product_id" product) (at_product index) "product_id"
  let quantity = field_of "quantity" product
  raise_if (not (is_null quantity || is_quantity quantity))
      (config_error (at_product index ++ ".quantity must be a positive integer"))
  ok (compact (("productId", str product_id) ∷ ("quantity", quantity) ∷ []))

unfoldable pub order_lines : ℕ → List Value → Result (List Options)
order_lines index [] = ok []
order_lines index (product ∷ products) = do
  line ← order_line index product
  lines ← order_lines (index + 1) products
  ok (line ∷ lines)

-- The checks of `ordered`, with the lines that it builds.
unfoldable pub check_products : Value → Result (List Options)
check_products (list (cons v vs)) = order_lines 0 (v ∷ items_of vs)
check_products v = raised (config_error "ordered: products must be a non-empty sequence")

-- The checks of `product_viewed` and of `added_to_cart`.
unfoldable pub check_viewed : Value → Options → Result (List Options)
check_viewed product_id ids = do
  product ← non_blank product_id "product_viewed" "product_id"
  require_identifier ids "product_viewed"
  ok ((("productId", str product) ∷ []) ∷ [])

unfoldable pub check_added : Value → Value → Options → Result (List Options)
check_added product_id quantity ids = do
  product ← non_blank product_id "added_to_cart" "product_id"
  raise_if (not (is_quantity quantity))
      (config_error "added_to_cart: quantity must be a positive integer")
  require_identifier ids "added_to_cart"
  ok ((("productId", str product) ∷ ("quantity", quantity) ∷ []) ∷ [])

unfoldable pub check_ordered : Value → Options → Result (List Options)
check_ordered products ids = do
  lines ← check_products products
  require_identifier ids "ordered"
  ok lines

module _ {W : Type 0} (out : Outside W) where
  abbrev pub stamped_lines :
      String → Options → List Options → String → Result ℤ × W → Result Value × W
  stamped_lines name ids lines event_id (m, w) =
      (m >>= λ millis. ok (lines_event name ids lines event_id millis), w)

  unfoldable pub track_lines :
      String → Options → List Options → Client → W → Option (Result (Unit {0}) × (Client × W))
  track_lines name ids lines c w =
      let (event_id, w') = out.uuid w in
      submit_built out c
        (stamped_lines name ids lines event_id (millis_of out (get "timestamp" ids) w'))

  -- A commerce call, from the lines that its checks built.
  abbrev pub track_checked :
      String
      → Options
      → Result (List Options)
      → Client
      → W
      → Option (Result (Unit {0}) × (Client × W))
  track_checked name ids (raised e) c w = some (raised e, (c, w))
  track_checked name ids (ok lines) c w = track_lines name ids lines c w

  unfoldable pub product_viewed :
      Value → Options → Client → W → Option (Result (Unit {0}) × (Client × W))
  product_viewed product_id ids c w =
      track_checked "Product viewed" ids (check_viewed product_id ids) c w

  unfoldable pub added_to_cart :
      Value → Value → Options → Client → W → Option (Result (Unit {0}) × (Client × W))
  added_to_cart product_id quantity ids c w =
      track_checked "Added to cart" ids (check_added product_id quantity ids) c w

  unfoldable pub ordered : Value → Options → Client → W → Option (Result (Unit {0}) × (Client × W))
  ordered products ids c w = track_checked "Product ordered" ids (check_ordered products ids) c w
