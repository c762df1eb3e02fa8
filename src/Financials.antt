-- ===== src/Financials.antt =====
-- lib/sync/invoice-financials.ts: may an invoice be issued for an order. The children hold the
-- strict rules and the Product-Only rules. A reason is its code, without the text that follows it.
pub mod Strict
pub mod ProductOnly
mod Tests
use store_kiotviet.Base.{
  ℕ, Bool, true, false, Option, none, some, List, [], ◌∷◌, Result, ok, ◌>>=◌, ◌>>◌, if◌then◌else◌,
}
use store_kiotviet.Base.Int.{ℤ}
use store_kiotviet.Shopify.{Order, OrderSettings}
use store_kiotviet.Prepare.{PreparedOrder}
use store_kiotviet.ProductOnly.{product_only_policy}
use Strict.{evaluate_strict_financials}
use ProductOnly.{evaluate_product_only_financials}
use Report.{InvoiceFinancials}
mod Report
pub use Report.*

unfoldable pub evaluate_invoice_financials :
    Order → PreparedOrder → OrderSettings → Result InvoiceFinancials
evaluate_invoice_financials order prepared s =
    let policy = product_only_policy s in
    if policy.enabled
    then evaluate_product_only_financials order prepared s policy
    else evaluate_strict_financials order prepared s
