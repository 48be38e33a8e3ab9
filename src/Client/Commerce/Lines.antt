-- ===== src/Client/Commerce/Lines.antt =====
-- The lines that `ordered` builds.
use intempt_python.Prelude.{ℕ, ◌+◌, String, true, ◌||◌, not, List, [], ◌∷◌, ◌≡◌, refl, arith}
use intempt_python.Python.Result.{Ensures, bind-Ensured, raise_if-Ensures}
use intempt_python.Python.Value.{Value, null, str, Options, get, is_null, present}
use intempt_python.Client.Commerce.{is_quantity, field_of, at_product, order_line, order_lines}
use intempt_python.Util.{compact, non_blank}

-- A line that carries the product's id and quantity, the quantity absent where the product has none.
pub record IsLineOf (product : Value) (line : Options) : Type 0 where
  pub named : present (field_of "product_id" product) ≡ true
  pub counted :
      (is_null (field_of "quantity" product) || is_quantity (field_of "quantity" product)) ≡ true
  pub product_id : get "productId" line ≡ field_of "product_id" product
  pub quantity : get "quantity" line ≡ field_of "quantity" product

abbrev pub AreLinesOf : List Value → List Options → Type 0
AreLinesOf [] [] = Unit
AreLinesOf [] (line ∷ lines) = ⊥
AreLinesOf (product ∷ products) [] = ⊥
AreLinesOf (product ∷ products) (line ∷ lines) = IsLineOf product line × AreLinesOf products lines

non_blank_lem :
    (v : Value) (method field : String)
    → Ensures (λ s. (v ≡ str s) × (present v ≡ true)) (non_blank v method field)
unfolding non_blank present
non_blank_lem (str s) method field = ground arith
non_blank_lem _ method field = tt

get-quantity :
    (id : String) (quantity : Value)
    → get "quantity" (compact (("productId", str id) ∷ ("quantity", quantity) ∷ [])) ≡ quantity
unfolding get compact
get-quantity id null = refl
get-quantity id _ = refl

get-product_id :
    (id : String) (quantity : Value)
    → get "productId" (compact (("productId", str id) ∷ ("quantity", quantity) ∷ [])) ≡ str id
unfolding get compact
get-product_id id quantity = refl

order_line-IsLineOf :
    (index : ℕ) (product : Value) → Ensures (IsLineOf product) (order_line index product)
unfolding order_line
order_line-IsLineOf index product =
    let id = field_of "product_id" product in
    let quantity = field_of "quantity" product in
    bind-Ensured (λ s. (id ≡ str s) × (present id ≡ true)) (IsLineOf product)
      (non_blank id (at_product index) "product_id") _
      (non_blank_lem id (at_product index) "product_id")
      λ s named.
        raise_if-Ensures (IsLineOf product) (not (is_null quantity || is_quantity quantity)) _ _
          λ fine. record {
            named = named.1;
            counted = ground arith;
            product_id = rw named.0 (get-product_id s quantity);
            quantity = get-quantity s quantity;
          }

-- `ordered` accepts products only if each has an id that is not blank and a quantity that is absent
-- or a positive integer, and then builds one line for each, in order, with that id and quantity.
pub order_lines-AreLinesOf :
    (index : ℕ) (products : List Value) → Ensures (AreLinesOf products) (order_lines index products)
unfolding order_lines
order_lines-AreLinesOf index [] = tt
order_lines-AreLinesOf index (product ∷ products) =
    let Q = AreLinesOf (product ∷ products) in
    bind-Ensured (IsLineOf product) Q (order_line index product) _
      (order_line-IsLineOf index product)
      λ line is_line.
        bind-Ensured (AreLinesOf products) Q (order_lines (index + 1) products) _
          (order_lines-AreLinesOf (index + 1) products) λ lines are_lines. (is_line, are_lines)
