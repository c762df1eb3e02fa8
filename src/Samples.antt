-- ===== src/Samples.antt =====
-- A Shopify order, its settings and its prepared form, on which the theorems are tried.
use store_kiotviet.Base.{ℕ, true, false, none, some, [], ◌∷◌}
use store_kiotviet.Base.Int.{pos}
use store_kiotviet.Text.{codes}
use store_kiotviet.Money.{absent, whole}
use store_kiotviet.Shopify.{LineItem, Order, OrderSettings, Refund, cancel, paid}
use store_kiotviet.Lines.{ExcludedFeeLine, exact_title_without_sku, OrderAmounts}
use store_kiotviet.ProductOnly.Refunds.{LineAdjustment, RefundAdjustments, cancelled_refund}
use store_kiotviet.Prepare.{PreparedOrder, ValidatedLine}

-- Three units of 10.00 each.
abbrev pub shirt : LineItem
shirt = record {
  id = 1;
  sku = some (codes " ab1 ");
  quantity = 3;
  price = whole (pos 1000);
  name = none;
  title = none;
  variant_id = none;
  product_id = none;
  total_discount = absent;
  discount_allocations = some [];
  tax_lines = [];
  current_quantity = none;
}

-- The fee of 1.00 for paying by card.
abbrev pub card_fee : LineItem
card_fee = record shirt {
  id = 2;
  sku = none;
  quantity = 1;
  price = whole (pos 100);
  title = some (codes "SVC Fee - Credit Card Processing Fee");
}

abbrev pub plain_order : Order
plain_order = record {
  id = 7;
  cancelled = false;
  financial_status = paid;
  total_price = whole (pos 3100);
  currency = some (codes "vnd");
  refunds = [];
  fulfillments = none;
  taxes_included = true;
  total_tip_received = absent;
  shipping_lines = [];
  line_items = shirt ∷ card_fee ∷ [];
}

-- One unit of the shirt was cancelled before it was shipped.
abbrev pub cancelled_unit : Refund
cancelled_unit = record {
  id = some 5;
  refund_line_items =
      record {
        id = some 6;
        line_item_id = 1;
        quantity = 1;
        restock_type = cancel;
        subtotal = whole (pos 1000);
      }
      ∷ [];
  transactions = record { success = true; amount = whole (pos 1000) } ∷ [];
}

abbrev pub refunded_order : Order
refunded_order = record plain_order { refunds = cancelled_unit ∷ [] }

abbrev pub strict_settings : OrderSettings
strict_settings = record {
  auto_create = none;
  paid_only = none;
  auto_invoice = none;
  invoice_creation_trigger = none;
  kiot_viet_currency = some (codes "VND");
  shipping_surcharge = none;
  processing_fee_variant_ids = [];
  processing_fee_product_ids = [];
  processing_fee_titles = none;
  product_only_invoicing = none;
  ignore_financial_mismatch = none;
  exclude_shipping = none;
  exclude_processing_fees = none;
  exclude_other_surcharges = none;
  allow_unverified_prepayment_inheritance = none;
  acknowledge_unverified_prepayment_risk = none;
  prepayment_manual_override = false;
  refunded_items_policy = none;
}

abbrev pub product_only_settings : OrderSettings
product_only_settings = record strict_settings { product_only_invoicing = some true }

abbrev pub shirts : ℕ → ValidatedLine
shirts n = record { line = shirt; sku = codes "AB1"; quantity = n; price = pos 100000 }

abbrev pub fee : ExcludedFeeLine
fee = record { line = card_fee; reason = exact_title_without_sku; charged_cents = pos 100 }

abbrev pub amounts : OrderAmounts
amounts = record {
  shopify_total = pos 3100;
  excluded_fee_total = pos 100;
  adjusted_total = pos 3000;
  expected_adjusted_total = pos 3000;
  consistent = true;
}

abbrev pub plain_prepared : PreparedOrder
plain_prepared = record {
  lines = shirts 3 ∷ [];
  fees = fee ∷ [];
  amounts = amounts;
  original_lines = none;
  adjustments = none;
}

abbrev pub shirt_adjustment : LineAdjustment
shirt_adjustment = record {
  line_item_id = 1;
  original_quantity = 3;
  refunded_quantity = 1;
  excluded_quantity = 1;
  remaining_quantity = 2;
  fulfilled_quantity = none;
  reason = cancelled_refund;
  excluded_refund_subtotal_cents = pos 1000;
}

abbrev pub shirt_adjusted : RefundAdjustments
shirt_adjusted = record { lines = (1, shirt_adjustment) ∷ []; ambiguous = [] }

-- The refunded order under Product-Only.
abbrev pub refunded_prepared : PreparedOrder
refunded_prepared = record {
  lines = shirts 2 ∷ [];
  fees = fee ∷ [];
  amounts = amounts;
  original_lines = some (shirt ∷ []);
  adjustments = some shirt_adjusted;
}
