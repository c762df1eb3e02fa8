-- ===== src/AutoInvoice/Eligible.antt =====
-- decideAutoInvoice of lib/sync/invoice-sync.ts: only an order that is being created is invoiced
-- with it, and never where a trigger is configured.
use store_kiotviet.Base.{
  Bool, true, false, ◌&&◌, not, none, some, Result, ok, ◌>>=◌, if◌then◌else◌, is_some, or_else,
}
use store_kiotviet.Shopify.{Order, OrderSettings}
use store_kiotviet.Prepare.{PreparedOrder}
use store_kiotviet.Financials.{evaluate_invoice_financials}
use store_kiotviet.AutoInvoice.{AutoInvoiceDecision}

abbrev is_enabled : OrderSettings → Bool
is_enabled s = not (is_some s.invoice_creation_trigger) && or_else s.auto_invoice false

unfoldable pub decide_auto_invoice :
    Order → PreparedOrder → OrderSettings → Result AutoInvoiceDecision
decide_auto_invoice order prepared s =
    if is_enabled s
    then (do
      financials ← evaluate_invoice_financials order prepared s
      ok (record {
        enabled = true;
        request = financials.eligible;
        expected_payment = some financials.expected_payment;
      }))
    else ok (record { enabled = false; request = false; expected_payment = none })
