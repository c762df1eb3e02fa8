-- ===== src/Prepare.antt =====
-- prepareOrderForKiotViet and the payment of a new order, of lib/sync/order-sync.ts. A line's price
-- is in hundredths of a cent, as `Number(line.price)` read it; all other amounts are cents.
pub mod Laws
pub mod Details
mod Tests
use store_kiotviet.Base.{
  ℕ, ◌<◌, Bool, true, false, ◌&&◌, ◌||◌, not, Option, none, some, List, [], ◌∷◌, map, Result, ok,
  err, AppError, ◌>>=◌, ◌>>◌, throw_if, map_result, if◌then◌else◌, ◌==◌, ltb, keep_if, is_empty,
  get, is_some,
}
use store_kiotviet.Base.Int.{ℤ, pos, negsuc, ◌+ℤ◌, ◌-ℤ◌, ◌*ℤ◌, round_div, ltb_ℤ}
use store_kiotviet.Text.{Text, normalize_sku}
use store_kiotviet.Money.{Amount, absent, unreadable, decimal}
use store_kiotviet.Shopify.{
  LineItem, Order, OrderSettings, FinancialStatus, paid, partially_refunded,
}
use store_kiotviet.Lines.{
  ExcludedFeeLine, OrderAmounts, Partition, partition_order_lines, compute_order_amounts,
  line_discount_cents,
}
use store_kiotviet.ProductOnly.{
  ProductOnlyPolicy, product_only_policy, means_not_shipped, discounted_unit_price_cents,
}
use store_kiotviet.ProductOnly.Refunds.{
  LineAdjustment, RefundAdjustments, compute_refund_adjustments,
}

pub record ValidatedLine : Type 0 where
  pub line : LineItem
  pub sku : Text
  pub quantity : ℕ
  pub price : ℤ

pub record PreparedOrder : Type 0 where
  pub lines : List ValidatedLine
  pub fees : List ExcludedFeeLine
  pub amounts : OrderAmounts
  -- both only under Product-Only
  pub original_lines : Option (List LineItem)
  pub adjustments : Option RefundAdjustments

-- `adjustments?.lines.get(id)?.remainingQuantity ?? quantity`
abbrev remaining_or : Option LineAdjustment → ℕ → ℕ
remaining_or none quantity = quantity
remaining_or (some a) quantity = a.remaining_quantity

unfoldable pub remaining : Option RefundAdjustments → LineItem → ℕ
remaining none line = line.quantity
remaining (some r) line = remaining_or (get line.id r.lines) line.quantity

-- `Number(price)`, which must be finite and not negative.
unfoldable pub read_price : Amount → Result ℤ
read_price absent = ok (pos 0)
read_price unreadable = err AppError.validation
read_price (decimal (pos n)) = ok (pos n)
read_price (decimal (negsuc n)) = err AppError.validation

unfoldable pub validate_line : Option RefundAdjustments → LineItem → Result ValidatedLine
unfolding read_price
validate_line adjustments line = do
  let sku = normalize_sku line.sku
  throw_if (is_empty sku) AppError.mapping
  throw_if (line.quantity == 0) AppError.validation
  price ← read_price line.price
  ok (record {
    line = line;
    sku = sku;
    quantity = if is_some adjustments then remaining adjustments line else line.quantity;
    price = price;
  })

unfoldable pub adjust_if_enabled :
    ProductOnlyPolicy → Order → List LineItem → Result (Option RefundAdjustments)
adjust_if_enabled policy order purchased =
    if policy.enabled
    then (compute_refund_adjustments order.refunds order.fulfillments purchased
          (means_not_shipped policy.refunded_items_policy)
        >>= λ r. ok (some r))
    else ok none

-- The lines that are sent: without adjustments all of them, else those with units left.
unfoldable pub sent_lines : Option RefundAdjustments → List LineItem → List LineItem
sent_lines adjustments purchased =
    keep_if (λ line. not (is_some adjustments) || ltb 0 (remaining adjustments line)) purchased

unfoldable pub prepare_order_for_kiot_viet : Order → OrderSettings → Result PreparedOrder
unfolding adjust_if_enabled sent_lines
prepare_order_for_kiot_viet order s = do
  throw_if (is_empty order.line_items) AppError.validation
  p ← partition_order_lines order s
  adjustments ← adjust_if_enabled (product_only_policy s) order p.purchased
  lines ← map_result (validate_line adjustments) (sent_lines adjustments p.purchased)
  amounts ←
      compute_order_amounts order
        (if is_some adjustments then p.purchased else map (λ (l : ValidatedLine). l.line) lines)
        p.fees
  ok (record {
    lines = lines;
    fees = p.fees;
    amounts = amounts;
    original_lines = if is_some adjustments then some p.purchased else none;
    adjustments = adjustments;
  })

abbrev is_paid_status : FinancialStatus → Bool
is_paid_status paid = true
is_paid_status _ = false

abbrev is_partially_refunded : FinancialStatus → Bool
is_partially_refunded partially_refunded = true
is_partially_refunded _ = false

unfoldable pub is_paid : Order → OrderSettings → Bool
is_paid order s =
    is_paid_status order.financial_status
    || (product_only_policy s).enabled && is_partially_refunded order.financial_status

-- Merchandise paid for the remaining units; a discount that does not split is prorated.
unfoldable pub paid_for_line : ValidatedLine → Option ℤ → Result ℤ
paid_for_line l (some unit) = ok (unit *ℤ l.quantity)
paid_for_line l none = do
  discount ← line_discount_cents l.line
  let net = round_div l.price 100 *ℤ l.line.quantity -ℤ discount
  ok (round_div (net *ℤ l.quantity) l.line.quantity)

unfoldable pub merchandise_paid_cents : List ValidatedLine → Result ℤ
unfolding paid_for_line
merchandise_paid_cents [] = ok (pos 0)
merchandise_paid_cents (l ∷ rest) = do
  unit ← discounted_unit_price_cents l.line l.line.quantity
  c ← paid_for_line l unit
  total ← merchandise_paid_cents rest
  ok (c +ℤ total)

-- The totalPayment sent with a new KiotViet order, in cents.
unfoldable pub planned_order_payment : Order → PreparedOrder → OrderSettings → Result ℤ
unfolding merchandise_paid_cents
planned_order_payment order prepared s =
    if not (is_paid order s)
    then ok (pos 0)
    else if (product_only_policy s).enabled
    then merchandise_paid_cents prepared.lines
    else ok prepared.amounts.adjusted_total

-- Product-Only lines carry their discounted unit price where it is a whole number of cents.
reprice : ValidatedLine → Option ℤ → ValidatedLine
reprice l none = l
reprice l (some unit) = record l { price = unit *ℤ 100 }

unfoldable pub product_only_lines : List ValidatedLine → Result (List ValidatedLine)
unfolding reprice
product_only_lines lines =
    map_result
      (λ (l : ValidatedLine). do
        unit ← discounted_unit_price_cents l.line l.line.quantity
        ok (reprice l unit))
      lines
