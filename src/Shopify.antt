-- ===== src/Shopify.antt =====
-- The Shopify order as types/shopify.ts declares it, and the order settings of
-- lib/sync/default-branch.ts, with the fields that the modelled code reads. Ids and quantities are
-- natural numbers; a list that the source reads as `?? []` is a list here. Timestamps of
-- cancellation are only tested for presence, so `cancelled` is a Boolean.
use store_kiotviet.Base.{ℕ, Bool, Option, List}
use store_kiotviet.Text.{Text}
use store_kiotviet.Money.{Amount}

pub record LineItem : Type 0 where
  pub id : ℕ
  pub sku : Option Text
  pub quantity : ℕ
  pub price : Amount
  pub name : Option Text
  pub title : Option Text
  pub variant_id : Option ℕ
  pub product_id : Option ℕ
  pub total_discount : Amount
  -- `none` where the field is no array
  pub discount_allocations : Option (List Amount)
  pub tax_lines : List Amount
  pub current_quantity : Option ℕ

pub record ShippingLine : Type 0 where
  pub price : Amount
  pub discounted_price : Option Amount
  pub tax_lines : List Amount

-- `restock_type`, lower case; `other` is return, legacy_restock, a missing or an unknown type.
pub data RestockType : Type 0 where
  cancel no_restock other : RestockType

pub record RefundLineItem : Type 0 where
  pub id : Option ℕ
  pub line_item_id : ℕ
  -- a quantity that is no positive safe integer is 0
  pub quantity : ℕ
  pub restock_type : RestockType
  pub subtotal : Amount

-- `success` is whether kind is "refund" and status is "success".
pub record Transaction : Type 0 where
  pub success : Bool
  pub amount : Amount

pub record Refund : Type 0 where
  pub id : Option ℕ
  pub refund_line_items : List RefundLineItem
  pub transactions : List Transaction

-- `success` is whether the lower-case status is "success"; the items are line ids and quantities.
pub record Fulfillment : Type 0 where
  pub success : Bool
  pub line_items : List (ℕ × ℕ)

pub data FinancialStatus : Type 0 where
  paid partially_refunded refunded pending unknown : FinancialStatus

pub record Order : Type 0 where
  pub id : ℕ
  pub cancelled : Bool
  pub financial_status : FinancialStatus
  pub total_price : Amount
  pub currency : Option Text
  pub refunds : List Refund
  -- `none` where Shopify gave no fulfillments
  pub fulfillments : Option (List Fulfillment)
  pub taxes_included : Bool
  pub total_tip_received : Amount
  pub shipping_lines : List ShippingLine
  pub line_items : List LineItem

pub data RefundedItemsPolicy : Type 0 where
  verify_unshipped refund_means_not_shipped : RefundedItemsPolicy

pub data InvoiceTrigger : Type 0 where
  shopify_fulfilled shopify_paid disabled : InvoiceTrigger

pub record ShippingSurcharge : Type 0 where
  pub id : ℕ
  pub code : Text
  pub invoice_inherits_from_order : Bool

-- A Boolean setting is `none` where it is missing or no Boolean.
pub record OrderSettings : Type 0 where
  pub auto_create : Option Bool
  pub paid_only : Option Bool
  pub auto_invoice : Option Bool
  pub invoice_creation_trigger : Option InvoiceTrigger
  pub kiot_viet_currency : Option Text
  pub shipping_surcharge : Option ShippingSurcharge
  -- the entries that are texts of digits
  pub processing_fee_variant_ids : List ℕ
  pub processing_fee_product_ids : List ℕ
  pub processing_fee_titles : Option (List Text)
  pub product_only_invoicing : Option Bool
  pub ignore_financial_mismatch : Option Bool
  pub exclude_shipping : Option Bool
  pub exclude_processing_fees : Option Bool
  pub exclude_other_surcharges : Option Bool
  pub allow_unverified_prepayment_inheritance : Option Bool
  pub acknowledge_unverified_prepayment_risk : Option Bool
  -- whether prepaymentExceedsInvoicePolicy is "manual_override"
  pub prepayment_manual_override : Bool
  -- `none` stands for a missing or unknown value
  pub refunded_items_policy : Option RefundedItemsPolicy
