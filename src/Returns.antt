-- ===== src/Returns.antt =====
-- lib/sync/return-sync.ts: a completed KiotViet return becomes one financial refund in Shopify.
-- Here: what the job reads of KiotViet and of Shopify.
pub mod Lines
pub mod Refunds
pub mod Row
pub mod Stuck
pub mod Payments
pub mod Process
pub mod Once
mod Tests
use store_kiotviet.Base.{ℕ, Bool, Option, List}
use store_kiotviet.Base.Int.{ℤ}
use store_kiotviet.Text.{Text}

-- A number by what `Number.isInteger` says of it.
pub data Quantity : Type 0 where
  units : ℤ → Quantity
  fractional : Quantity

pub record ReturnLine : Type 0 where
  pub product_code : Text
  pub quantity : Quantity

-- KiotVietReturn. Amounts are hundredths of a cent, `none` where the payload has none; the date is
-- `none` where Date.parse gives NaN.
pub record Returned : Type 0 where
  pub id : ℕ
  pub code : Text
  pub is_completed : Bool
  pub invoice_id : Option ℕ
  pub return_date : Option ℕ
  pub return_details : List ReturnLine
  pub total_payment : Option ℤ
  pub return_total : Option ℤ

-- A line of the Shopify order with the quantity that may still be refunded.
pub record RefundableLine : Type 0 where
  pub id : ℕ
  pub sku : Option Text
  pub refundable_quantity : ℤ

pub record RefundLine : Type 0 where
  pub line_item_id : ℕ
  pub quantity : ℕ

-- ShopifyExistingRefund: its note, the SKUs of its lines and the total in hundredths of a cent.
pub record ExistingRefund : Type 0 where
  pub id : ℕ
  pub note : Option Text
  pub created_at : Option ℕ
  pub skus : List (Option Text)
  pub total_refunded : Option ℤ
