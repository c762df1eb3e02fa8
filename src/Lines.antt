-- ===== src/Lines.antt =====
-- lib/sync/order-line-items.ts: which lines of a Shopify order are payment-processing fees, and
-- the amounts of the order without them. Amounts are whole cents.
pub mod Amounts
mod Tests
use store_kiotviet.Base.{
  ℕ, Bool, true, false, ◌&&◌, ◌||◌, Option, none, some, List, [], ◌∷◌, Result, ok, err, AppError,
  ◌>>=◌, ◌>>◌, throw_if, if◌then◌else◌, or_else, has_id, is_empty, any_of, keep_if, map, not,
}
use store_kiotviet.Base.Int.{ℤ, pos, ◌+ℤ◌, ◌-ℤ◌, ◌*ℤ◌, ltb_ℤ, leb_ℤ}
use store_kiotviet.Text.{Text, codes, text_eq, has_text, trim, normalize_sku}
use store_kiotviet.Money.{Amount, to_cents, sum_cents}
use store_kiotviet.Shopify.{LineItem, ShippingLine, Order, OrderSettings}

abbrev pub default_processing_fee_titles : List Text
default_processing_fee_titles = codes "SVC Fee - Credit Card Processing Fee" ∷ []

pub data ProcessingFeeReason : Type 0 where
  configured_variant_id configured_product_id exact_title_without_sku : ProcessingFeeReason

abbrev matches_id : Option ℕ → List ℕ → Bool
matches_id none ids = false
matches_id (some k) ids = has_id k ids

abbrev matches_title : List Text → Option Text → Bool
matches_title titles none = false
matches_title titles (some t) = has_text (trim t) titles

-- The configured titles, trimmed, without the empty ones.
fee_titles : OrderSettings → List Text
fee_titles s =
    keep_if (λ t. not (is_empty t))
      (map trim (or_else s.processing_fee_titles default_processing_fee_titles))

unfoldable pub processing_fee_reason : LineItem → OrderSettings → Option ProcessingFeeReason
unfolding fee_titles
processing_fee_reason line s =
    if matches_id line.variant_id s.processing_fee_variant_ids
    then some ProcessingFeeReason.configured_variant_id
    else if matches_id line.product_id s.processing_fee_product_ids
    then some ProcessingFeeReason.configured_product_id
    else if is_empty (normalize_sku line.sku)
        && (matches_title (fee_titles s) line.title || matches_title (fee_titles s) line.name)
    then some ProcessingFeeReason.exact_title_without_sku
    else none

-- Amount actually discounted on the line: its allocations, else the deprecated total.
unfoldable pub line_discount_cents : LineItem → Result ℤ
line_discount_cents line = elim line.discount_allocations [
  | none ↦ to_cents line.total_discount
  | some allocations ↦ sum_cents allocations
]

abbrev pub tax_unless_included : Bool → List Amount → Result ℤ
tax_unless_included included taxes = if included then ok (pos 0) else sum_cents taxes

-- price × quantity − allocated discounts (+ line taxes when prices exclude tax)
unfoldable pub line_charged_cents : LineItem → Bool → Result ℤ
line_charged_cents line taxes_included = do
  price ← to_cents line.price
  discounts ← line_discount_cents line
  tax ← tax_unless_included taxes_included line.tax_lines
  ok (price *ℤ line.quantity -ℤ discounts +ℤ tax)

abbrev pub shipping_amount : ShippingLine → Amount
shipping_amount s = or_else s.discounted_price s.price

-- Shipping the customer was charged, without shipping tax.
unfoldable pub shipping_charged_cents : List ShippingLine → Result ℤ
shipping_charged_cents lines = sum_cents (map shipping_amount lines)

pub record ExcludedFeeLine : Type 0 where
  pub line : LineItem
  pub reason : ProcessingFeeReason
  pub charged_cents : ℤ

pub record Partition : Type 0 where
  pub purchased : List LineItem
  pub fees : List ExcludedFeeLine

abbrev file_line : LineItem → Option ProcessingFeeReason → Bool → Partition → Result Partition
file_line line none taxes_included p = ok (record p { purchased = line ∷ p.purchased })
file_line line (some r) taxes_included p = do
  cents ← line_charged_cents line taxes_included
  ok (record p { fees = record { line = line; reason = r; charged_cents = cents } ∷ p.fees })

unfoldable pub partition_lines : Bool → OrderSettings → List LineItem → Result Partition
partition_lines taxes_included s [] = ok (record { purchased = []; fees = [] })
partition_lines taxes_included s (line ∷ rest) = do
  p ← partition_lines taxes_included s rest
  file_line line (processing_fee_reason line s) taxes_included p

unfoldable pub partition_order_lines : Order → OrderSettings → Result Partition
unfolding partition_lines
partition_order_lines order s = partition_lines order.taxes_included s order.line_items

pub record OrderAmounts : Type 0 where
  pub shopify_total : ℤ
  pub excluded_fee_total : ℤ
  pub adjusted_total : ℤ
  pub expected_adjusted_total : ℤ
  pub consistent : Bool

abbrev pub fee_cents : List ExcludedFeeLine → ℤ
fee_cents [] = pos 0
fee_cents (f ∷ fees) = f.charged_cents +ℤ fee_cents fees

unfoldable pub charged_total : Bool → List LineItem → Result ℤ
charged_total taxes_included [] = ok (pos 0)
charged_total taxes_included (line ∷ rest) = do
  c ← line_charged_cents line taxes_included
  total ← charged_total taxes_included rest
  ok (c +ℤ total)

-- Shipping with its tax when prices exclude tax.
unfoldable pub shipping_total : Bool → List ShippingLine → Result ℤ
shipping_total taxes_included [] = ok (pos 0)
shipping_total taxes_included (s ∷ rest) = do
  c ← to_cents (shipping_amount s)
  tax ← tax_unless_included taxes_included s.tax_lines
  total ← shipping_total taxes_included rest
  ok (c +ℤ tax +ℤ total)

unfoldable pub compute_order_amounts :
    Order → List LineItem → List ExcludedFeeLine → Result OrderAmounts
unfolding charged_total shipping_total
compute_order_amounts order purchased fees = do
  total ← to_cents order.total_price
  let excluded = fee_cents fees
  let adjusted = total -ℤ excluded
  throw_if (ltb_ℤ adjusted (pos 0)) AppError.validation
  shipping ← shipping_total order.taxes_included order.shipping_lines
  products ← charged_total order.taxes_included purchased
  tip ← to_cents order.total_tip_received
  let expected = products +ℤ shipping +ℤ tip
  ok (record {
    shopify_total = total;
    excluded_fee_total = excluded;
    adjusted_total = adjusted;
    expected_adjusted_total = expected;
    consistent = leb_ℤ expected adjusted && leb_ℤ adjusted expected;
  })
