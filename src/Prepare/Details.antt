-- ===== src/Prepare/Details.antt =====
-- buildOrderDetails and shippingSurcharges of lib/sync/order-sync.ts: what KiotViet is sent. The
-- mapping of a SKU is ensureProductMapping, an argument here, with the product id that it has, if any.
pub mod Faithful
use store_kiotviet.Base.{
  ℕ, Bool, true, false, ◌&&◌, ◌||◌, not, Option, none, some, List, [], ◌∷◌, Result, ok, err,
  AppError, ◌>>=◌, if◌then◌else◌, ◌==◌, map_result, is_empty,
}
use store_kiotviet.Base.Int.{ℤ, pos, leb_ℤ}
use store_kiotviet.Text.{Text}
use store_kiotviet.Shopify.{ShippingSurcharge, Order, OrderSettings}
use store_kiotviet.Lines.{shipping_charged_cents}
use store_kiotviet.Prepare.{ValidatedLine}

-- A price is in hundredths of a cent, as that of the line.
pub record OrderDetail : Type 0 where
  pub product_id : ℕ
  pub product_code : Option Text
  pub quantity : ℕ
  pub price : ℤ
  pub discount : ℤ

-- A mapping or conflict error is thrown again as a mapping error.
abbrev pub rethrow : AppError → AppError
rethrow AppError.conflict = AppError.mapping
rethrow e = e

abbrev pub mapped_product : Result (Option ℕ) → Result ℕ
mapped_product (err e) = err (rethrow e)
mapped_product (ok none) = err AppError.mapping
mapped_product (ok (some id)) = if id == 0 then err AppError.mapping else ok id

unfoldable pub order_detail : (Text → Result (Option ℕ)) → ValidatedLine → Result OrderDetail
order_detail mapping l = do
  id ← mapped_product (mapping l.sku)
  ok (record {
    product_id = id;
    product_code = l.line.sku;
    quantity = l.quantity;
    price = l.price;
    discount = pos 0;
  })

unfoldable pub build_order_details :
    (Text → Result (Option ℕ)) → List ValidatedLine → Result (List OrderDetail)
unfolding order_detail
build_order_details mapping lines = map_result (order_detail mapping) lines

pub record Surcharge : Type 0 where
  pub id : ℕ
  pub code : Text
  pub cents : ℤ

abbrev pub surcharge_of : Option ShippingSurcharge → ℤ → List Surcharge
surcharge_of none cents = []
surcharge_of (some s) cents =
    if leb_ℤ cents (pos 0) || s.id == 0 || is_empty s.code
    then []
    else record { id = s.id; code = s.code; cents = cents } ∷ []

unfoldable pub shipping_surcharges : Order → OrderSettings → Result (List Surcharge)
shipping_surcharges order s = do
  cents ← shipping_charged_cents order.shipping_lines
  ok (surcharge_of s.shipping_surcharge cents)
