-- ===== src/ProductOnly.antt =====
-- lib/sync/product-only-invoicing.ts: the policy, the discounted unit price and the payment
-- decision. The children hold the refund adjustments and what is proved.
pub mod Refunds
pub mod Payments
mod Tests
use store_kiotviet.Base.{
  ℕ, ◌/◌, ◌%◌, Bool, true, false, ◌&&◌, ◌||◌, not, Option, none, some, Result, ok, ◌>>=◌,
  if◌then◌else◌, or_else, ◌==◌,
}
use store_kiotviet.Base.Int.{ℤ, pos, negsuc, ◌-ℤ◌, ◌*ℤ◌, ltb_ℤ}
use store_kiotviet.Money.{to_cents}
use store_kiotviet.Shopify.{
  LineItem, OrderSettings, RefundedItemsPolicy, verify_unshipped, refund_means_not_shipped,
}
use store_kiotviet.Lines.{line_discount_cents}

pub record ProductOnlyPolicy : Type 0 where
  pub enabled : Bool
  pub ignore_financial_mismatch : Bool
  pub exclude_shipping : Bool
  pub exclude_processing_fees : Bool
  pub exclude_other_surcharges : Bool
  pub allow_unverified_prepayment_inheritance : Bool
  pub prepayment_manual_override : Bool
  pub refunded_items_policy : RefundedItemsPolicy

-- `value === true` and `value !== false`
abbrev pub is_true : Option Bool → Bool
is_true none = false
is_true (some b) = b

abbrev pub is_not_false : Option Bool → Bool
is_not_false none = true
is_not_false (some b) = b

unfoldable pub product_only_policy : OrderSettings → ProductOnlyPolicy
product_only_policy s =
    let enabled = is_true s.product_only_invoicing in
    record {
      enabled = enabled;
      ignore_financial_mismatch = enabled && is_not_false s.ignore_financial_mismatch;
      exclude_shipping = enabled && is_not_false s.exclude_shipping;
      exclude_processing_fees = enabled && is_not_false s.exclude_processing_fees;
      exclude_other_surcharges = enabled && is_not_false s.exclude_other_surcharges;
      allow_unverified_prepayment_inheritance =
          enabled
          && is_true s.allow_unverified_prepayment_inheritance
          && is_true s.acknowledge_unverified_prepayment_risk;
      prepayment_manual_override = s.prepayment_manual_override;
      refunded_items_policy = or_else s.refunded_items_policy verify_unshipped;
    }

abbrev pub means_not_shipped : RefundedItemsPolicy → Bool
means_not_shipped verify_unshipped = false
means_not_shipped refund_means_not_shipped = true

-- `net / quantity` where it is a whole number; JavaScript's `net % 0` is NaN, so 0 has none.
unfoldable pub split_evenly : ℤ → ℕ → Option ℤ
split_evenly (negsuc n) quantity = none
split_evenly (pos n) quantity =
    if quantity == 0 || not (n % quantity == 0) then none else some (pos (n / quantity))

-- Discounted unit price in cents, or none where the discount does not split into whole cents.
unfoldable pub discounted_unit_price_cents : LineItem → ℕ → Result (Option ℤ)
unfolding split_evenly
discounted_unit_price_cents line quantity = do
  price ← to_cents line.price
  discount ← line_discount_cents line
  ok (split_evenly (price *ℤ quantity -ℤ discount) quantity)

pub data PrepaymentPolicy : Type 0 where
  verified unverified_accepted : PrepaymentPolicy

pub data PaymentDecision : Type 0 where
  -- the invoice carries no additional payment; the payment it must come to have, in cents
  safe : ℤ → PrepaymentPolicy → PaymentDecision
  kiotviet_payment_missing prepayment_exceeds_invoice prepayment_below_invoice : PaymentDecision
  prepayment_inheritance_unverified : PaymentDecision

abbrev pub is_zero : ℤ → Bool
is_zero (pos n) = n == 0
is_zero (negsuc n) = false

unfoldable pub product_only_payment_decision :
    (prepaid invoice_total : ℤ) (inheritance_verified allow_unverified : Bool) → PaymentDecision
product_only_payment_decision prepaid invoice_total inheritance_verified allow_unverified =
    if is_zero prepaid
    then kiotviet_payment_missing
    else if ltb_ℤ invoice_total prepaid
    then prepayment_exceeds_invoice
    else if ltb_ℤ prepaid invoice_total
    then prepayment_below_invoice
    else if not inheritance_verified && not allow_unverified
    then prepayment_inheritance_unverified
    else safe prepaid (if inheritance_verified then verified else unverified_accepted)
