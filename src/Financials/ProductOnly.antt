-- ===== src/Financials/ProductOnly.antt =====
-- The Product-Only rules: evaluateProductOnlyFinancials.
pub mod Accounting
pub mod Payment
use store_kiotviet.Base.{
  ℕ, Bool, true, false, ◌&&◌, ◌||◌, not, Option, none, some, List, [], ◌∷◌, ◌++◌, map, Result, ok,
  ◌>>=◌, if◌then◌else◌, is_empty, concat, ◌==◌, get, or_else,
}
use store_kiotviet.Base.Int.{ℤ, pos, ◌+ℤ◌, ◌-ℤ◌, ◌*ℤ◌, ltb_ℤ, leb_ℤ, round_div, sum_ℤ}
use store_kiotviet.Money.{to_cents, sum_cents}
use store_kiotviet.Shopify.{LineItem, Order, OrderSettings, Refund, ShippingLine}
use store_kiotviet.Lines.{line_discount_cents, shipping_charged_cents}
use store_kiotviet.Prepare.{ValidatedLine, PreparedOrder, remaining}
use store_kiotviet.ProductOnly.{
  ProductOnlyPolicy, means_not_shipped, is_zero, discounted_unit_price_cents,
}
use store_kiotviet.ProductOnly.Refunds.{
  RefundAdjustments, compute_refund_adjustments, subtotals, LineAdjustment,
}
use store_kiotviet.Financials.Report.{
  Reason, unsupported_tip, amount_mismatch, refund_details_missing, unsupported_tax,
  shipping_not_excluded, processing_fee_not_excluded, refund_exceeds_excluded_charges,
  discount_not_representable, ambiguous, DifferenceCode, cancelled_items_excluded,
  cancelled_refund_allocation_difference, shipping_excluded, processing_fee_excluded, tip_excluded,
  other_charges_excluded, refund_of_excluded_charges, shopify_paid_vs_invoice, FinancialDifference,
  product_only, InvoiceFinancials, reason_if, is_partial, state_reasons, order_currency,
  currency_reasons, refund_amount,
}

-- What the loop over the product lines adds up.
pub record LineTotals : Type 0 where
  pub merchandise : ℤ
  pub original_merchandise : ℤ
  pub product_tax : ℤ
  pub reasons : List Reason
  pub unit_prices : List (ℕ × ℤ)

abbrev pub no_lines : LineTotals
no_lines = record {
  merchandise = pos 0;
  original_merchandise = pos 0;
  product_tax = pos 0;
  reasons = [];
  unit_prices = [];
}

-- The units of a line that are invoiced: at the discounted unit price, or prorated with a reason.
unfoldable pub add_units : LineItem → ℕ → ℤ → Option ℤ → LineTotals → LineTotals
add_units line units net (some unit) t = record t {
  merchandise = unit *ℤ units +ℤ t.merchandise;
  unit_prices = (line.id, unit) ∷ t.unit_prices;
}
add_units line units net none t = record t {
  merchandise = round_div (net *ℤ units) line.quantity +ℤ t.merchandise;
  reasons = discount_not_representable line.id ∷ t.reasons;
}

unfoldable pub add_line : LineItem → ℕ → ℤ → ℤ → Option ℤ → LineTotals → LineTotals
unfolding add_units
add_line line units net tax unit t =
    let u = record t {
      original_merchandise = net +ℤ t.original_merchandise;
      product_tax = tax +ℤ t.product_tax;
    } in
    if units == 0 then u else add_units line units net unit u

unfoldable pub product_lines : Option RefundAdjustments → List LineItem → Result LineTotals
unfolding add_line
product_lines adjustments [] = ok no_lines
product_lines adjustments (line ∷ rest) = do
  price ← to_cents line.price
  discount ← line_discount_cents line
  tax ← sum_cents line.tax_lines
  unit ← discounted_unit_price_cents line line.quantity
  t ← product_lines adjustments rest
  ok (add_line line (remaining adjustments line) (price *ℤ line.quantity -ℤ discount) tax unit t)

unfoldable pub shipping_tax : List ShippingLine → Result ℤ
shipping_tax [] = ok (pos 0)
shipping_tax (s ∷ rest) = do c ← sum_cents s.tax_lines; total ← shipping_tax rest; ok (c +ℤ total)

abbrev same_refund : Option ℕ → Option ℕ → Bool
same_refund none none = true
same_refund none (some k) = false
same_refund (some j) none = false
same_refund (some j) (some k) = j == k

abbrev counted : Option ℕ → List (Option ℕ) → Bool
counted key [] = false
counted key (k ∷ ks) = same_refund key k || counted key ks

-- The successful transactions, each refund counted once by its id.
unfoldable pub count_refunds : List (Option ℕ) → List Refund → Result ℤ
count_refunds seen [] = ok (pos 0)
count_refunds seen (r ∷ rest) =
    let again = count_refunds seen rest in
    let first = refund_amount r.transactions >>= λ c.
    count_refunds (r.id ∷ seen) rest >>= λ total. ok (c +ℤ total) in
    if counted r.id seen then again else first

-- The numbers that the verdict is put together from, in cents. `product_tax` and `shipping_tax`
-- are what is added on top of the prices, so nothing where prices include tax.
pub record Charges : Type 0 where
  pub lines : LineTotals
  pub refund_subtotal : ℤ
  pub product_tax : ℤ
  pub shipping : ℤ
  pub shipping_tax : ℤ
  pub fee : ℤ
  pub tip : ℤ
  pub shopify_total : ℤ
  pub refunded : ℤ

abbrev pub cancelled : Charges → ℤ
cancelled c = c.lines.original_merchandise -ℤ c.lines.merchandise

-- Shopify's total is the order as placed, cancelled units included.
abbrev pub explained : Charges → ℤ
explained c =
    c.lines.original_merchandise +ℤ c.product_tax +ℤ c.shipping +ℤ c.shipping_tax +ℤ c.fee +ℤ c.tip

abbrev pub others : Charges → ℤ
others c = c.shopify_total -ℤ explained c

-- `Math.max(0, shopifyTotalCents - productChargesCents)`
abbrev pub excluded_charges : Charges → ℤ
excluded_charges c =
    let d = c.shopify_total -ℤ (c.lines.merchandise +ℤ c.product_tax) in
    if ltb_ℤ d (pos 0) then pos 0 else d

abbrev pub positive : ℤ → Bool
positive a = ltb_ℤ (pos 0) a

-- A difference of 0 is not recorded.
abbrev pub difference : DifferenceCode → ℤ → List FinancialDifference
difference code amount = if is_zero amount then [] else record { code = code; amount = amount } ∷ []

abbrev pub difference_if : Bool → DifferenceCode → ℤ → List FinancialDifference
difference_if true code amount = difference code amount
difference_if false code amount = []

unfoldable pub charge_reasons : ProductOnlyPolicy → Charges → List Reason
charge_reasons policy c = concat (
    (reason_if (positive c.product_tax) unsupported_tax)
    ∷ (reason_if (positive (c.shipping +ℤ c.shipping_tax) && not policy.exclude_shipping)
        shipping_not_excluded)
    ∷ (reason_if (positive c.fee && not policy.exclude_processing_fees) processing_fee_not_excluded)
    ∷ (reason_if (positive c.tip && not policy.exclude_other_surcharges) unsupported_tip)
    ∷ (reason_if
        (ltb_ℤ (others c) (pos 0)
          || positive (others c)
            && not (policy.exclude_other_surcharges && policy.ignore_financial_mismatch))
        amount_mismatch)
    ∷ [])

unfoldable pub settled_differences : ProductOnlyPolicy → Charges → List FinancialDifference
settled_differences policy c = concat (
    (difference_if (positive (c.shipping +ℤ c.shipping_tax) && policy.exclude_shipping)
      shipping_excluded (c.shipping +ℤ c.shipping_tax))
    ∷ (difference_if (positive c.fee && policy.exclude_processing_fees) processing_fee_excluded
        c.fee)
    ∷ (difference_if (positive c.tip && policy.exclude_other_surcharges) tip_excluded c.tip)
    ∷ (difference_if
        (positive (others c) && policy.exclude_other_surcharges && policy.ignore_financial_mismatch)
        other_charges_excluded (others c))
    ∷ (difference_if (not (ltb_ℤ (excluded_charges c) c.refunded)) refund_of_excluded_charges
        (pos 0 -ℤ c.refunded))
    ∷ [])

unfoldable pub all_differences : ProductOnlyPolicy → Charges → List FinancialDifference
all_differences policy c = concat (
    (difference cancelled_items_excluded (cancelled c))
    ∷ (difference_if (positive (cancelled c) && positive c.refund_subtotal)
        cancelled_refund_allocation_difference (c.refund_subtotal -ℤ cancelled c))
    ∷ (settled_differences policy c)
    ∷ (difference shopify_paid_vs_invoice (c.shopify_total -ℤ c.refunded -ℤ c.lines.merchandise))
    ∷ [])

unfoldable pub product_only_verdict :
    Order → OrderSettings → ProductOnlyPolicy → RefundAdjustments → Charges → InvoiceFinancials
unfolding charge_reasons all_differences settled_differences
product_only_verdict order s policy adjustments c =
    let reasons = concat (
      (state_reasons order)
      ∷ (currency_reasons order s)
      ∷ c.lines.reasons
      ∷ (charge_reasons policy c)
      ∷ (reason_if (is_partial order.financial_status && is_empty order.refunds)
          refund_details_missing)
      ∷ (map ambiguous adjustments.ambiguous)
      ∷ (reason_if (ltb_ℤ (excluded_charges c) c.refunded) refund_exceeds_excluded_charges)
      ∷ []) in
    record {
      eligible = is_empty reasons;
      reasons = reasons;
      currency = order_currency order.currency;
      merchandise_total = c.lines.merchandise;
      shipping_total = pos 0;
      expected_payment = c.lines.merchandise;
      refunded_total = c.refunded;
      mode = product_only;
      shopify_paid_total = some (c.shopify_total -ℤ c.refunded);
      differences = all_differences policy c;
      unit_prices = c.lines.unit_prices;
    }

abbrev unless_included : Bool → ℤ → ℤ
unless_included included tax = if included then pos 0 else tax

-- `taxesIncluded ? 0 : …`: where prices include tax the shipping taxes are not even read.
abbrev pub added_shipping_tax : Bool → List ShippingLine → Result ℤ
added_shipping_tax included lines = if included then ok (pos 0) else shipping_tax lines

unfoldable pub read_charges :
    Order → PreparedOrder → List LineItem → RefundAdjustments → Result Charges
read_charges order prepared original_lines adjustments = do
  lines ← product_lines (some adjustments) original_lines
  shipping ← shipping_charged_cents order.shipping_lines
  shipping_tax ← added_shipping_tax order.taxes_included order.shipping_lines
  tip ← to_cents order.total_tip_received
  total ← to_cents order.total_price
  refunded ← count_refunds [] order.refunds
  ok (record {
    lines = lines;
    refund_subtotal =
        sum_ℤ
          (map (λ (e : ℕ × LineAdjustment). e.1.excluded_refund_subtotal_cents) adjustments.lines);
    product_tax = unless_included order.taxes_included lines.product_tax;
    shipping = shipping;
    shipping_tax = shipping_tax;
    fee = prepared.amounts.excluded_fee_total;
    tip = tip;
    shopify_total = total;
    refunded = refunded;
  })

abbrev pub lines_or : Option (List LineItem) → List ValidatedLine → List LineItem
lines_or none lines = map (λ (l : ValidatedLine). l.line) lines
lines_or (some original) lines = original

abbrev pub adjustments_or :
    Option RefundAdjustments → Order → List LineItem → ProductOnlyPolicy → Result RefundAdjustments
adjustments_or (some a) order lines policy = ok a
adjustments_or none order lines policy =
    compute_refund_adjustments order.refunds order.fulfillments lines
      (means_not_shipped policy.refunded_items_policy)

unfoldable pub evaluate_product_only_financials :
    Order → PreparedOrder → OrderSettings → ProductOnlyPolicy → Result InvoiceFinancials
unfolding read_charges product_only_verdict
evaluate_product_only_financials order prepared s policy = do
  let original = lines_or prepared.original_lines prepared.lines
  adjustments ← adjustments_or prepared.adjustments order original policy
  c ← read_charges order prepared original adjustments
  ok (product_only_verdict order s policy adjustments c)
