-- ===== src/OrderSync/Run.antt =====
-- runShopifyOrderSync as a whole, when no other job moves the row in between: the decision and what
-- is done about it.
pub mod Links
pub mod Uncertain
mod Tests
use store_kiotviet.Base.{ℕ, Bool, Option, none, some, Result, ok, err, AppError}
use store_kiotviet.Shopify.{Order, OrderSettings}
use store_kiotviet.OrderSync.Decision.{
  Row, Decision, update, verify, busy, skip, invalid, create, decide_claim,
}
use store_kiotviet.OrderSync.Outcomes.{
  OrderSyncResult, updated_as, skipped, Reply, claim_row, record_updated, record_unclaimed_failure,
  create_mapped_order, verify_uncertain_order,
}

-- How the requests of one job end: updating the customer of a linked order, resolving the input of a
-- new order, sending it, and the search for an order that names this one.
pub record Replies : Type 0 where
  pub customer : Result (Unit {0})
  pub input : Result (Unit {0})
  pub sent : Reply
  pub found : Option ℕ

unfoldable pub update_mapped_order : ℕ → Result (Unit {0}) → Row → Result OrderSyncResult × Row
unfolding record_updated
update_mapped_order id (err e) row = (err e, row)
update_mapped_order id (ok _) row = (ok (updated_as id), record_updated row)

-- The row is there whenever the decision is to verify.
unfoldable pub verify_row : ℕ → Option ℕ → Row → Result OrderSyncResult × Row
unfolding verify_uncertain_order
verify_row now found none = (err AppError.plain, none)
verify_row now found (some m) = verify_uncertain_order now found m

unfoldable pub act : (now token : ℕ) → Replies → Row → Decision → Result OrderSyncResult × Row
unfolding update_mapped_order verify_row create_mapped_order claim_row record_unclaimed_failure
act now token r row (update id) = update_mapped_order id r.customer row
act now token r row verify = verify_row now r.found row
act now token r row busy = (err AppError.retryable, row)
act now token r row (skip reason) = (ok (skipped reason), row)
act now token r row (invalid stage e) = (err e, record_unclaimed_failure now stage e row)
act now token r row (create p) =
    create_mapped_order now token r.input r.sent (claim_row now token row)

unfoldable pub run_shopify_order_sync :
    (now token : ℕ) (order : Order) (s : OrderSettings)
    → Replies
    → Row
    → Result OrderSyncResult × Row
unfolding act decide_claim
run_shopify_order_sync now token order s r row = act now token r row (decide_claim now order s row)
