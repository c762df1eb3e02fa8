-- ===== src/AutoInvoice/Samples.antt =====
-- An order of two lines whose invoice was requested, and that invoice.
use store_kiotviet.Base.{true, none, some, List, [], ◌∷◌}
use store_kiotviet.Base.Int.{pos}
use store_kiotviet.Text.{codes}
use store_kiotviet.AutoInvoice.{ExpectedLine, Stock, InvoiceRow, InvoiceStatus, no_reconciliation}
use store_kiotviet.AutoInvoice.Checks.{InvoiceDetail}

abbrev pub two_lines : List ExpectedLine
two_lines =
    record { product_id = 4; quantity = 2000; price = pos 500 }
    ∷ record { product_id = 4; quantity = 1000; price = pos 450 }
    ∷ []

abbrev pub before : Stock
before = (4, some (pos 9000)) ∷ []

abbrev pub after : Stock
after = (4, some (pos 6000)) ∷ []

abbrev pub in_flight_row : InvoiceRow
in_flight_row = record {
  kiot_viet_order = some (8, codes "DH8");
  kiot_viet_invoice_id = none;
  status = InvoiceStatus.creating;
  claim_token = some 1;
  claimed_at = some 0;
  created_at = 0;
  expected_total = some (pos 1450);
  failure_stage = none;
  payment_status = none;
  reconciliation = record no_reconciliation {
    branch_id = some 2;
    expected_lines = two_lines;
    stock_before = before;
  };
}

abbrev pub the_invoice : InvoiceDetail
the_invoice = record {
  id = 31;
  branch_id = some 2;
  lines =
      record { product_id = 4; quantity = 2000; price = pos 500; discount = pos 0 }
      ∷ record { product_id = 4; quantity = 1000; price = pos 450; discount = pos 0 }
      ∷ [];
  order_code = some (codes "DH8");
  is_completed = true;
  total = pos 1450;
  total_payment = pos 1450;
  payments = some (pos 1000 ∷ pos 450 ∷ []);
  surcharges = [];
}
