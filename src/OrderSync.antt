-- ===== src/OrderSync.antt =====
-- lib/sync/order-sync.ts: how a Shopify order becomes one KiotViet order. `Decision` has the row of
-- order_mappings for one Shopify order and the claim decision, `Outcomes` each SQL statement as an
-- operation on the row and the jobs in isolation, `Race` the jobs in any interleaving.
-- Times are milliseconds; claim tokens are numbers, fresh for each claim.
pub mod Decision
pub mod Outcomes
pub mod Race
pub mod Run
pub mod StatusWebhook
pub mod Settling
mod Tests
