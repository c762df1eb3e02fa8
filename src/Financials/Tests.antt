-- ===== src/Financials/Tests.antt =====
-- Trying the strict rules on the plain order and the Product-Only rules on the refunded one.
use store_kiotviet.ProductOnly.Refunds.{
  compute_refund_adjustments, adjust_line, invalid_problems, shipping_problems, kept, excluding,
  line_facts,
}
use store_kiotviet.Lines.{
  line_discount_cents, shipping_charged_cents, partition_order_lines, processing_fee_reason,
  line_charged_cents, compute_order_amounts,
}
use store_kiotviet.Money.{to_cents, sum_cents}
use store_kiotviet.Base.{arith, ◌≡◌, refl, ok, true, none, some, [], ◌∷◌, concat}
use store_kiotviet.Base.Int.{ℤ, pos, ◌-ℤ◌, ◌≤ℤ◌, ◌+ℤ◌, ◌*ℤ◌, round_div}
use store_kiotviet.Text.{codes, upper, normalize_sku}
use store_kiotviet.Samples.{
  plain_order, plain_prepared, strict_settings, refunded_order, refunded_prepared,
  product_only_settings, shirt_adjusted,
}
use store_kiotviet.ProductOnly.{ProductOnlyPolicy, product_only_policy, discounted_unit_price_cents}
use store_kiotviet.Prepare.{
  prepare_order_for_kiot_viet, planned_order_payment, is_paid, remaining, validate_line,
}
use store_kiotviet.Financials.{evaluate_invoice_financials}
use store_kiotviet.Financials.Report.{
  InvoiceFinancials, strict, order_currency, state_reasons, currency_reasons, refund_amount,
}
use store_kiotviet.Financials.Strict.{
  evaluate_strict_financials, strict_lines, shipping_tax_reasons, strict_refunds, shipping_reasons,
}
use store_kiotviet.Financials.Strict.Laws.{IsExact, evaluate_strict_sound}
use store_kiotviet.Financials.ProductOnly.{
  Charges, product_only_verdict, evaluate_product_only_financials, product_lines, count_refunds,
}
use store_kiotviet.Financials.ProductOnly.Accounting.{
  IsNonneg, total_explained, product_only_paid, product_only_differences,
}
use store_kiotviet.Financials.ProductOnly.Payment.{planned_payment_is_expected}

abbrev plain_financials : InvoiceFinancials
plain_financials = record {
  eligible = true;
  reasons = [];
  currency = some (codes "VND");
  merchandise_total = pos 3000;
  shipping_total = pos 0;
  expected_payment = pos 3000;
  refunded_total = pos 0;
  mode = strict;
  shopify_paid_total = none;
  differences = [];
  unit_prices = [];
}

evaluate_plain_order :
    evaluate_strict_financials plain_order plain_prepared strict_settings ≡ ok plain_financials
unfolding evaluate_strict_financials strict_lines to_cents line_discount_cents sum_cents
    shipping_charged_cents shipping_tax_reasons strict_refunds concat order_currency ◌+ℤ◌
    state_reasons upper ◌*ℤ◌ currency_reasons round_div normalize_sku shipping_reasons
evaluate_plain_order = refl

evaluate_strict_sound_example : IsExact plain_order plain_prepared strict_settings plain_financials
evaluate_strict_sound_example =
    evaluate_strict_sound plain_order plain_prepared strict_settings plain_financials
      evaluate_plain_order refl

abbrev policy : ProductOnlyPolicy
policy = product_only_policy product_only_settings

-- Three shirts were ordered for 30.00 with a fee of 1.00; one was cancelled and refunded.
abbrev charges : Charges
charges = record {
  lines = record {
    merchandise = pos 2000;
    original_merchandise = pos 3000;
    product_tax = pos 0;
    reasons = [];
    unit_prices = (1, pos 1000) ∷ [];
  };
  refund_subtotal = pos 1000;
  product_tax = pos 0;
  shipping = pos 0;
  shipping_tax = pos 0;
  fee = pos 100;
  tip = pos 0;
  shopify_total = pos 3100;
  refunded = pos 1000;
}

charges-IsNonneg : IsNonneg charges
unfolding ◌+ℤ◌
charges-IsNonneg = record {
  product_tax = omega arith;
  shipping = omega arith;
  fee = omega arith;
  tip = omega arith;
}

abbrev refunded_financials : InvoiceFinancials
refunded_financials =
    product_only_verdict refunded_order product_only_settings policy shirt_adjusted charges

refunded-eligible : refunded_financials.eligible ≡ true
unfolding product_only_verdict concat state_reasons currency_reasons normalize_sku upper ◌+ℤ◌
    product_only_policy ◌-ℤ◌
refunded-eligible = refl

product_only_paid_example :
    (paid : ℤ) × (refunded_financials.shopify_paid_total ≡ some paid)
    × (refunded_financials.expected_payment ≤ℤ paid)
unfolding ◌-ℤ◌
product_only_paid_example =
    product_only_paid refunded_order product_only_settings policy shirt_adjusted charges
      charges-IsNonneg (omega arith) refunded-eligible

product_only_differences_example :
    (paid : ℤ) × (refunded_financials.shopify_paid_total ≡ some paid)
    × (total_explained refunded_financials.differences
        ≡ paid -ℤ refunded_financials.expected_payment)
product_only_differences_example =
    product_only_differences refunded_order product_only_settings policy shirt_adjusted charges
      charges-IsNonneg refunded-eligible

on : (product_only_policy product_only_settings).enabled ≡ true
unfolding product_only_policy
on = refl

paid : is_paid refunded_order product_only_settings ≡ true
unfolding is_paid
paid = refl

prepared : prepare_order_for_kiot_viet refunded_order product_only_settings ≡ ok refunded_prepared
unfolding prepare_order_for_kiot_viet partition_order_lines processing_fee_reason line_charged_cents
    line_discount_cents compute_order_amounts normalize_sku to_cents sum_cents product_only_policy
    validate_line remaining ◌*ℤ◌ ◌-ℤ◌ round_div ◌+ℤ◌ compute_refund_adjustments adjust_line
    invalid_problems shipping_problems kept excluding line_facts
prepared = refl

planned :
    planned_order_payment refunded_order refunded_prepared product_only_settings ≡ ok (pos 2000)
unfolding planned_order_payment is_paid product_only_policy discounted_unit_price_cents to_cents
    line_discount_cents sum_cents ◌-ℤ◌ ◌*ℤ◌ round_div ◌+ℤ◌
planned = refl

evaluated :
    evaluate_invoice_financials refunded_order refunded_prepared product_only_settings
    ≡ ok refunded_financials
unfolding evaluate_invoice_financials product_only_policy evaluate_product_only_financials
    product_lines to_cents line_discount_cents sum_cents discounted_unit_price_cents
    shipping_charged_cents count_refunds refund_amount remaining round_div ◌+ℤ◌ ◌-ℤ◌ ◌*ℤ◌ concat
evaluated = refl

expected_payment_of_refunded : refunded_financials.expected_payment ≡ pos 2000
unfolding product_only_verdict
expected_payment_of_refunded = refl

planned_payment_is_expected_example : refunded_financials.expected_payment ≡ pos 2000
planned_payment_is_expected_example =
    planned_payment_is_expected refunded_order product_only_settings refunded_prepared (pos 2000)
      refunded_financials on paid prepared planned evaluated
