-- ===== src/Financials/Report.antt =====
-- The result type of lib/sync/invoice-financials.ts, its reasons, and the rules that both modes
-- share.
use store_kiotviet.Base.{
  ℕ, Bool, true, false, not, Option, none, some, List, [], ◌∷◌, ◌++◌, Result, ok, ◌>>=◌,
  if◌then◌else◌,
}
use store_kiotviet.Base.Int.{ℤ, pos, ◌+ℤ◌}
use store_kiotviet.Text.{Text, text_eq, normalize_sku, upper}
use store_kiotviet.Money.{sum_cents}
use store_kiotviet.Shopify.{
  Order, OrderSettings, FinancialStatus, paid, partially_refunded, Transaction,
}
use store_kiotviet.ProductOnly.Refunds.{Ambiguity}

pub data Reason : Type 0 where
  order_cancelled not_paid kiotviet_currency_not_configured order_currency_missing : Reason
  currency_mismatch unsupported_shipping shipping_unverified unsupported_tip : Reason
  amount_mismatch refund_details_missing refund_not_allocated refund_exceeds_fees : Reason
  shipping_not_excluded processing_fee_not_excluded refund_exceeds_excluded_charges : Reason
  unsupported_tax : Reason
  unsupported_discount discount_not_representable : ℕ → Reason
  refund_affects_products : Option ℕ → Reason
  ambiguous : Ambiguity → Reason

pub data DifferenceCode : Type 0 where
  cancelled_items_excluded cancelled_refund_allocation_difference : DifferenceCode
  shipping_excluded processing_fee_excluded tip_excluded other_charges_excluded : DifferenceCode
  refund_of_excluded_charges shopify_paid_vs_invoice : DifferenceCode

pub record FinancialDifference : Type 0 where
  pub code : DifferenceCode
  pub amount : ℤ

pub data Mode : Type 0 where
  strict product_only : Mode

-- Amounts in cents.
pub record InvoiceFinancials : Type 0 where
  pub eligible : Bool
  pub reasons : List Reason
  pub currency : Option Text
  pub merchandise_total : ℤ
  pub shipping_total : ℤ
  pub expected_payment : ℤ
  pub refunded_total : ℤ
  pub mode : Mode
  pub shopify_paid_total : Option ℤ
  pub differences : List FinancialDifference
  pub unit_prices : List (ℕ × ℤ)

abbrev pub reason_if : Bool → Reason → List Reason
reason_if true r = r ∷ []
reason_if false r = []

abbrev pub is_invoiceable_status : FinancialStatus → Bool
is_invoiceable_status paid = true
is_invoiceable_status partially_refunded = true
is_invoiceable_status _ = false

abbrev pub is_partial : FinancialStatus → Bool
is_partial partially_refunded = true
is_partial _ = false

unfoldable pub state_reasons : Order → List Reason
state_reasons order =
    reason_if order.cancelled order_cancelled
    ++ reason_if (not (is_invoiceable_status order.financial_status)) not_paid

-- `order.currency ? order.currency.toUpperCase() : null`
unfoldable pub order_currency : Option Text → Option Text
order_currency none = none
order_currency (some []) = none
order_currency (some (c ∷ s)) = some (upper (c ∷ s))

unfoldable pub compare_currency : Text → Option Text → List Reason
compare_currency [] currency = kiotviet_currency_not_configured ∷ []
compare_currency (c ∷ configured) none = order_currency_missing ∷ []
compare_currency (c ∷ configured) (some currency) =
    reason_if (not (text_eq currency (c ∷ configured))) currency_mismatch

unfoldable pub currency_reasons : Order → OrderSettings → List Reason
unfolding compare_currency order_currency
currency_reasons order s =
    compare_currency (normalize_sku s.kiot_viet_currency) (order_currency order.currency)

-- The successful refund transactions of a refund.
unfoldable pub refund_amount : List Transaction → Result ℤ
refund_amount [] = ok (pos 0)
refund_amount (t ∷ rest) = do
  total ← refund_amount rest
  c ← sum_cents (if t.success then t.amount ∷ [] else [])
  ok (c +ℤ total)
