-- ===== src/Prepare/Details/Faithful.antt =====
-- The details of an order against its lines.
use store_kiotviet.Base.{
  ℕ, ◌<◌, ◌≡◌, refl, Option, none, some, List, [], ◌∷◌, Result, ok, err, >>=-eq-ok, ok-injective,
  map_result, subst, arith,
}
use store_kiotviet.Base.Int.{pos}
use store_kiotviet.Text.{Text}
use store_kiotviet.Prepare.{ValidatedLine}
use store_kiotviet.Prepare.Details.{OrderDetail, mapped_product, order_detail, build_order_details}

-- The detail is for the product of the line's SKU, with the line's units and price.
pub record IsDetail (mapping : Text → Result (Option ℕ)) (l : ValidatedLine) (d : OrderDetail)
    : Type 0 where
  pub product : mapping l.sku ≡ ok (some d.product_id)
  pub known : 0 < d.product_id
  pub units : d.quantity ≡ l.quantity
  pub price : d.price ≡ l.price
  pub undiscounted : d.discount ≡ pos 0

-- One detail for each line, in their order.
abbrev pub AreDetails : (Text → Result (Option ℕ)) → List ValidatedLine → List OrderDetail → Type 0
AreDetails mapping [] [] = Unit {0}
AreDetails mapping [] (d ∷ ds) = ⊥
AreDetails mapping (l ∷ ls) [] = ⊥
AreDetails mapping (l ∷ ls) (d ∷ ds) = IsDetail mapping l d × AreDetails mapping ls ds

mapped_product_ok :
    (m : Result (Option ℕ)) (id : ℕ) → mapped_product m ≡ ok id → (m ≡ ok (some id)) × (0 < id)
mapped_product_ok (err e) id h = cc
mapped_product_ok (ok none) id h = cc
mapped_product_ok (ok (some k)) id h = ground arith

order_detail-IsDetail :
    (mapping : Text → Result (Option ℕ)) (l : ValidatedLine) (d : OrderDetail)
    → order_detail mapping l ≡ ok d
    → IsDetail mapping l d
unfolding order_detail
order_detail-IsDetail mapping l d h =
    let (id, e, h1) = >>=-eq-ok (mapped_product (mapping l.sku)) _ h in
    let (found, known) = mapped_product_ok (mapping l.sku) id e in
    subst (IsDetail mapping l) (ok-injective h1)
      (record { product = found; known = known; units = refl; price = refl; undiscounted = refl })

-- The details that are sent to KiotViet stand one for each line, in order: the product that the
-- mapping of its SKU names, its units, its price and no discount.
pub build_order_details-AreDetails :
    (mapping : Text → Result (Option ℕ)) (lines : List ValidatedLine) (ds : List OrderDetail)
    → build_order_details mapping lines ≡ ok ds
    → AreDetails mapping lines ds
unfolding build_order_details
build_order_details-AreDetails mapping [] ds h = subst (AreDetails mapping []) (ok-injective h) tt
build_order_details-AreDetails mapping (l ∷ lines) ds h =
    let (d, e1, h1) = >>=-eq-ok (order_detail mapping l) _ h in
    let (later, e2, h2) = >>=-eq-ok (map_result (order_detail mapping) lines) _ h1 in
    subst (AreDetails mapping (l ∷ lines)) (ok-injective h2)
      (order_detail-IsDetail mapping l d e1, build_order_details-AreDetails mapping lines later e2)
