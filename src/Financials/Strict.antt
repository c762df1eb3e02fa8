-- ===== src/Financials/Strict.antt =====
-- The strict rules: evaluateInvoiceFinancials without Product-Only.
pub mod Laws
use store_kiotviet.Base.{
  ℕ, Bool, true, false, ◌&&◌, ◌||◌, not, Option, none, some, List, [], ◌∷◌, ◌++◌, map, Result, ok,
  ◌>>=◌, if◌then◌else◌, is_empty, concat, has_id, keep_if, ltb, ◌==◌,
}
use store_kiotviet.Base.Int.{ℤ, pos, ◌+ℤ◌, ◌-ℤ◌, ◌*ℤ◌, ltb_ℤ, leb_ℤ}
use store_kiotviet.Money.{to_cents, sum_cents}
use store_kiotviet.Shopify.{
  Order, OrderSettings, Refund, RefundLineItem, ShippingLine, ShippingSurcharge,
}
use store_kiotviet.Lines.{line_discount_cents, shipping_charged_cents, ExcludedFeeLine}
use store_kiotviet.Prepare.{ValidatedLine, PreparedOrder}
use store_kiotviet.Financials.Report.{
  Reason, unsupported_shipping, shipping_unverified, unsupported_tip, amount_mismatch,
  refund_details_missing, refund_not_allocated, refund_exceeds_fees, unsupported_tax,
  unsupported_discount, refund_affects_products, strict, InvoiceFinancials, reason_if, is_partial,
  state_reasons, order_currency, currency_reasons, refund_amount,
}

-- Merchandise, and the reasons against the lines, in the order of the lines.
unfoldable pub strict_lines : Bool → List ValidatedLine → Result (ℤ × List Reason)
strict_lines taxes_included [] = ok (pos 0, [])
strict_lines taxes_included (l ∷ rest) = do
  price ← to_cents l.line.price
  discount ← line_discount_cents l.line
  tax ← sum_cents l.line.tax_lines
  (total, reasons) ← strict_lines taxes_included rest
  ok (
    price *ℤ l.quantity +ℤ total,
    reason_if (ltb_ℤ (pos 0) discount) (unsupported_discount l.line.id)
        ++ reason_if (not taxes_included && ltb_ℤ (pos 0) tax) unsupported_tax
        ++ reasons,
  )

unfoldable pub shipping_reasons : ℤ → Option ShippingSurcharge → List Reason
shipping_reasons shipping none = reason_if (ltb_ℤ (pos 0) shipping) unsupported_shipping
shipping_reasons shipping (some s) =
    if ltb_ℤ (pos 0) shipping
    then (if s.id == 0 || is_empty s.code
        then unsupported_shipping ∷ []
        else reason_if (not s.invoice_inherits_from_order) shipping_unverified)
    else []

unfoldable pub shipping_tax_reasons : Bool → List ShippingLine → Result (List Reason)
shipping_tax_reasons taxes_included [] = ok []
shipping_tax_reasons taxes_included (s ∷ rest) = do
  tax ← sum_cents s.tax_lines
  reasons ← shipping_tax_reasons taxes_included rest
  ok (reason_if (not taxes_included && ltb_ℤ (pos 0) tax) unsupported_tax ++ reasons)

-- Refunded units of lines that are no processing fee.
abbrev pub refunded_products : List ℕ → Refund → List RefundLineItem
refunded_products fee_ids r =
    keep_if (λ (i : RefundLineItem). ltb 0 i.quantity && not (has_id i.line_item_id fee_ids))
      r.refund_line_items

unfoldable pub refund_reasons : List ℕ → Refund → ℤ → List Reason
refund_reasons fee_ids r amount =
    if not (is_empty (refunded_products fee_ids r))
    then refund_affects_products r.id ∷ []
    else reason_if (ltb_ℤ (pos 0) amount && is_empty r.refund_line_items) refund_not_allocated

unfoldable pub strict_refunds : List ℕ → List Refund → Result (ℤ × List Reason)
strict_refunds fee_ids [] = ok (pos 0, [])
strict_refunds fee_ids (r ∷ rest) = do
  amount ← refund_amount r.transactions
  (total, reasons) ← strict_refunds fee_ids rest
  ok (amount +ℤ total, refund_reasons fee_ids r amount ++ reasons)

-- What has been read of the order when the verdict is put together, in cents.
pub record StrictFacts : Type 0 where
  pub merchandise : ℤ
  pub shipping : ℤ
  pub tip : ℤ
  pub refunded : ℤ
  pub line_reasons : List Reason
  pub shipping_taxes : List Reason
  pub refunds : List Reason

abbrev pub differs_ℤ : ℤ → ℤ → Bool
differs_ℤ a b = ltb_ℤ a b || ltb_ℤ b a

unfoldable pub strict_reasons : Order → PreparedOrder → OrderSettings → StrictFacts → List Reason
strict_reasons order prepared s f = concat (
    (state_reasons order)
    ∷ (currency_reasons order s)
    ∷ f.line_reasons
    ∷ (shipping_reasons f.shipping s.shipping_surcharge)
    ∷ f.shipping_taxes
    ∷ (reason_if (ltb_ℤ (pos 0) f.tip) unsupported_tip)
    ∷ (reason_if (differs_ℤ prepared.amounts.adjusted_total (f.merchandise +ℤ f.shipping))
        amount_mismatch)
    ∷ (reason_if (is_partial order.financial_status && is_empty order.refunds)
        refund_details_missing)
    ∷ f.refunds
    ∷ (reason_if (ltb_ℤ prepared.amounts.excluded_fee_total f.refunded) refund_exceeds_fees)
    ∷ [])

unfoldable pub strict_verdict :
    Order → PreparedOrder → OrderSettings → StrictFacts → InvoiceFinancials
strict_verdict order prepared s f =
    let reasons = strict_reasons order prepared s f in
    record {
      eligible = is_empty reasons;
      reasons = reasons;
      currency = order_currency order.currency;
      merchandise_total = f.merchandise;
      shipping_total = f.shipping;
      expected_payment = f.merchandise +ℤ f.shipping;
      refunded_total = f.refunded;
      mode = strict;
      shopify_paid_total = none;
      differences = [];
      unit_prices = [];
    }

unfoldable pub read_strict_facts : Order → PreparedOrder → Result StrictFacts
read_strict_facts order prepared = do
  (merchandise, line_reasons) ← strict_lines order.taxes_included prepared.lines
  shipping ← shipping_charged_cents order.shipping_lines
  shipping_taxes ← shipping_tax_reasons order.taxes_included order.shipping_lines
  tip ← to_cents order.total_tip_received
  (refunded, refunds) ←
      strict_refunds (map (λ (fee : ExcludedFeeLine). fee.line.id) prepared.fees) order.refunds
  ok (record {
    merchandise = merchandise;
    shipping = shipping;
    tip = tip;
    refunded = refunded;
    line_reasons = line_reasons;
    shipping_taxes = shipping_taxes;
    refunds = refunds;
  })

unfoldable pub evaluate_strict_financials :
    Order → PreparedOrder → OrderSettings → Result InvoiceFinancials
unfolding read_strict_facts strict_verdict strict_reasons
evaluate_strict_financials order prepared s = do
  f ← read_strict_facts order prepared
  ok (strict_verdict order prepared s f)
