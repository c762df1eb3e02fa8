-- ===== src/Lib.antt =====
-- A Shopify store and a KiotViet point of sale kept in step: an order that is placed in Shopify
-- becomes one KiotViet order and, under rules, an invoice; KiotViet's stock becomes Shopify's
-- inventory levels. This library models the rules that decide about money, quantities and requests
-- that must not be sent twice.
--
-- The parts, by file (paths of the program are from the root of the repository):
--   Base          Boolean tests, lists, results with the errors of lib/errors.ts, and signed
--                 integers over the native numbers
--   Text          texts as code points; normalizeSku of lib/sync/mappings.ts
--   Money         money strings and toCents
--   Shopify       the order of types/shopify.ts and the settings of lib/sync/default-branch.ts
--   Lines         lib/sync/order-line-items.ts: fee lines, charges and the amounts of an order
--   ProductOnly   lib/sync/product-only-invoicing.ts: policy, unit prices, payment decision, and in
--                 Refunds computeRefundAdjustments
--   Prepare       lib/sync/order-sync.ts: prepareOrderForKiotViet and the planned payment;
--                 Details has buildOrderDetails
--   Financials    lib/sync/invoice-financials.ts: Strict and ProductOnly are the two modes
--   OrderSync     lib/sync/order-sync.ts: the row of order_mappings. Decision is the claim
--                 transaction, Outcomes has each statement and the parts of a job, Run the whole
--                 job, Race the jobs interleaved, StatusWebhook the way back from KiotViet
--   AutoInvoice   lib/sync/invoice-sync.ts: the row of invoice_mappings. Movement is the stock check,
--                 Checks and Finalize judge an invoice that KiotViet has, Eligible is
--                 decideAutoInvoice, and Recovery has the statements of
--                 lib/recovery/kiotviet-invoice-recovery.ts on the row
--   FulfillmentInvoice  lib/sync/fulfillment-invoice.ts: the trigger, the admission of jobs and, in
--                 Process, a whole job; Linked has every statement on the row as a step,
--                 Linked.Stays those of the recovery too
--   InvoiceIndex  lib/kiotviet/invoice-index.ts: the checked page and the stored checkpoint.
--                 Reposition is the search after a mismatch, Advance the runner, Runs all runners
--                 interleaved, FloorScan the scan above an id, Freshness what a lookup may rely on
--   Returns       lib/sync/return-sync.ts and getShopifyRefundTransactions of lib/shopify/orders.ts.
--                 Lines matches the lines, Refunds finds refunds that exist, Payments splits the
--                 amount, Row is the row of a return, Process a whole job, Stuck the returns that are
--                 queued again, Once the jobs interleaved
--   ProductBatches  lib/queue/product-sync-batches.ts: which products a bulk synchronisation queues
--   Inventory     lib/sync/inventory-sync.ts and setShopifyInventory of lib/shopify/inventory.ts;
--                 Routing finds the item and the location, Event is the whole handler
--   DefaultBranch resolveDefaultBranchId of lib/sync/default-branch.ts
--   Settings      lib/settings/sync-settings.ts
--   OverrideRules lib/sync/invoice-override-rules.ts
--   Samples       orders and settings that the tests of each part use
--
-- How they interact: Prepare partitions the lines with Lines, adjusts quantities with
-- ProductOnly.Refunds and computes the amounts; Decision runs Prepare inside the claim;
-- Financials judges a prepared order; the payment planned by Prepare is what the invoice must
-- come to. OrderSync links an order, FulfillmentInvoice then admits a job for its invoice, which
-- needs the index of InvoiceIndex to rule out duplicates, AutoInvoice keeps its row, and the
-- stock goes out through Inventory. Returns gives back money of an order that is linked.
--
-- Conventions. Amounts are whole cents of type ℤ, as the source computes them, without the
-- division by 100 at the end; a money string is what Number() makes of it, in hundredths of a
-- cent, so the rounding stays: the error of `Number(value) * 100` in doubles, which Math.round
-- absorbs, is not modelled. Numbers are unbounded. A field that Shopify always sends is never
-- `undefined`: a missing amount is read like null or "", and quantities are whole and not
-- negative. Ids, times in milliseconds and claim tokens are natural numbers. A `throw` is an
-- error result, a reason or a message its code. Replies of Shopify, KiotViet and the database are
-- arguments. In Race a step is one statement or one event, so that every interleaving and every
-- crash between two statements is a sequence of steps; Returns.Once, InvoiceIndex.Runs and
-- FulfillmentInvoice.Linked do the same for a return, the index and an invoice. A statement with
-- a subquery, such as the insert of an invoice job where none is active, is one step. The search
-- for the KiotViet order of a Shopify order finds only orders that these jobs made, none that a
-- person made with the same text. Loops are over lists: the pages of a runner or a scan are over
-- the replies that it gets. The search of InvoiceIndex.Reposition runs on the budget of 22
-- requests that the source gives it, which is enough for fewer than 2^22 invoices.
--
-- Not modelled: the queueing of product batches and what their jobs write; the recovery of
-- invoices and of orders, whose plan is an argument of FulfillmentInvoice, but for its statements
-- on the invoice row; what an administrator does to a job by hand; the lease of the index,
-- without which its runners are interleaved; the rescans, the HTTP clients, the queue, the SQL
-- layer, and the administration interface, which are I/O and glue.
pub mod Base
pub mod Text
pub mod Money
pub mod Shopify
pub mod Lines
pub mod ProductOnly
pub mod AutoInvoice
pub mod FulfillmentInvoice
pub mod Returns
pub mod InvoiceIndex
pub mod ProductBatches
pub mod Prepare
pub mod Financials
pub mod OrderSync
pub mod Inventory
pub mod Settings
pub mod DefaultBranch
pub mod OverrideRules
pub mod Samples
