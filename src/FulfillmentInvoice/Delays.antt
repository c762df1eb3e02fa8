-- ===== src/FulfillmentInvoice/Delays.antt =====
-- The waiting times of lib/sync/fulfillment-invoice.ts, and the stock push that is tried again.
use store_kiotviet.Base.{
  ℕ, zero, suc, ◌+◌, ◌≤◌, min, arith, Bool, true, false, Option, none, some, List,
}
use store_kiotviet.FulfillmentInvoice.{
  InvoiceJob, minutes, double, exhausted, park_delay, stock_retry_delay,
}

-- What reconciliation keeps of the stock push of an invoice.
pub record StockPush : Type 0 where
  pub is_synchronized : Option Bool
  pub attempts : ℕ
  pub retry_at : Option ℕ

unfoldable pub record_push_failed : ℕ → StockPush → StockPush
record_push_failed now p = record {
  is_synchronized = some false;
  attempts = p.attempts + 1;
  retry_at = some (now + stock_retry_delay p.attempts);
}

unfoldable pub record_pushed : StockPush → StockPush
record_pushed p = record p { is_synchronized = some true; retry_at = none }

double-ge : (n x : ℕ) → x ≤ double n x
double-ge zero x = omega arith
double-ge (suc n) x = omega (arith, double-ge n x)

double_mono : (n m x : ℕ) → n ≤ m → double n x ≤ double m x
double_mono zero m x h = double-ge m x
double_mono (suc n) zero x h = absurd (omega arith)
double_mono (suc n) (suc m) x h = omega (arith, double_mono n m x (omega arith))

-- A parked order is looked at again after at least 30 minutes and at most 24 hours.
pub park_delay_within :
    (order : ℕ) (jobs : List InvoiceJob)
    → (minutes 30 ≤ park_delay order jobs) × (park_delay order jobs ≤ minutes 1440)
unfolding park_delay
park_delay_within order jobs =
    (omega (arith, double-ge (min 6 (exhausted order jobs)) (minutes 30)), omega arith)

-- The delay of a stock retry is at least 5 minutes, does not shrink with the attempts, and is at
-- most 6 hours.
pub stock_retry_delay_grows :
    (n m : ℕ)
    → n ≤ m
    → (minutes 5 ≤ stock_retry_delay n)
      × (stock_retry_delay n ≤ stock_retry_delay m)
      × (stock_retry_delay m ≤ minutes 360)
unfolding stock_retry_delay
stock_retry_delay_grows n m h = (
  omega (arith, double-ge (min 7 n) (minutes 5)),
  omega (arith, double_mono (min 7 n) (min 7 m) (minutes 5) (omega arith)),
  omega arith,
)
