-- ===== src/FulfillmentInvoice/Tests.antt =====
-- An order whose invoice is requested twice, runs once and is linked.
use store_kiotviet.AutoInvoice.Movement.{verify_stock_movement}
use store_kiotviet.AutoInvoice.Checks.{check_invoice, payment_status_of}
use store_kiotviet.Base.{◌≡◌, refl, true, false, none, some, [], ◌∷◌, ok, subst}
use store_kiotviet.Base.Int.{pos, ◌+ℤ◌, ◌-ℤ◌}
use store_kiotviet.Text.{codes}
use store_kiotviet.Shopify.{shopify_paid, paid}
use store_kiotviet.AutoInvoice.{
  InvoiceRow, InvoiceStatus, AutoInvoiceDecision, MaybeRow, claim_auto_invoice, no_reconciliation,
}
use store_kiotviet.AutoInvoice.Samples.{in_flight_row, the_invoice, after}
use store_kiotviet.AutoInvoice.{mark_auto_invoice_sending, verified}
use store_kiotviet.Base.{subst}
use store_kiotviet.AutoInvoice.Finalize.{finalize_invoice}
use store_kiotviet.FulfillmentInvoice.{
  InvoiceJob, failed, completed, TriggerSettings, PaymentState, fulfilled, Outbox, at_time,
  invoice_trigger_decision,
}
use store_kiotviet.FulfillmentInvoice.Admission.{here, next, request, fresh_job}
use store_kiotviet.FulfillmentInvoice.Process.{
  Course, to_apply, process_fulfillment_invoice, process_fulfillment_invoice_done, is_invoiced,
}
use store_kiotviet.FulfillmentInvoice.Linked.{
  RowReach, claim, finalize, linked_invoice, mark_sending,
}
use store_kiotviet.FulfillmentInvoice.Linked.Stays.{
  LinkWorld, LinkReach, no_invoice, start, then_step, statement, recover, answer, find_more,
  link_stays,
}
use store_kiotviet.AutoInvoice.Recovery.{
  RecoveryClaim, claim_recovery, record_invoice_created, record_invoices_found,
}

abbrev exhausted_job : InvoiceJob
exhausted_job = record {
  entity_id = 7;
  trigger_state = codes "a|1";
  status = failed;
  attempts = 3;
  max_attempts = 3;
}

abbrev on_paid : TriggerSettings
on_paid = record { trigger = some shopify_paid; enabled_at = some 100; version = codes "1" }

abbrev paid_order : PaymentState
paid_order = record {
  updated_at = codes "a";
  created_at = some 150;
  is_cancelled = false;
  financial_status = paid;
  fulfillment_status = fulfilled;
}

abbrev no_jobs : Outbox
no_jobs = record { jobs = []; row = none; check_at = at_time 0 }

abbrev first_job : InvoiceJob
first_job = fresh_job 7 3 (codes "a|1")

abbrev done_job : InvoiceJob
done_job = record first_job { status = completed; attempts = 1 }

abbrev invoiced_row : InvoiceRow
invoiced_row = record {
  kiot_viet_order = some (8, codes "DH8");
  kiot_viet_invoice_id = some 31;
  status = InvoiceStatus.created;
  claim_token = none;
  claimed_at = none;
  created_at = 0;
  expected_total = some (pos 1450);
  failure_stage = none;
  payment_status = none;
  reconciliation = no_reconciliation;
}

abbrev smooth : Course
smooth = record {
  is_index_usable = true;
  has_floor = false;
  plan = ok to_apply;
  settings_changed = false;
  apply = λ row. (ok true, some invoiced_row);
  push = ok tt;
}

process_fulfillment_invoice_done_example :
    is_invoiced (process_fulfillment_invoice 300 on_paid (some paid_order) smooth none).1 ≡ true
unfolding invoice_trigger_decision process_fulfillment_invoice
process_fulfillment_invoice_done_example =
    process_fulfillment_invoice_done 300 on_paid paid_order smooth none refl refl refl

abbrev decision : AutoInvoiceDecision
decision = record { enabled = true; request = true; expected_payment = some (pos 1450) }

abbrev claimed : MaybeRow
claimed = (claim_auto_invoice 0 1 decision none).0

abbrev linked : MaybeRow
linked = finalize_invoice in_flight_row the_invoice (8, codes "DH8") (some after) claimed

linked_reached : RowReach none linked
linked_reached =
    RowReach.next (RowReach.next RowReach.here (claim 0 1 decision))
      (finalize in_flight_row the_invoice (8, codes "DH8") (some after))

abbrev linked_row : InvoiceRow
linked_row = record {
  kiot_viet_order = some (8, codes "DH8");
  kiot_viet_invoice_id = some 31;
  status = InvoiceStatus.created;
  claim_token = none;
  claimed_at = some 0;
  created_at = 0;
  expected_total = some (pos 1450);
  failure_stage = none;
  payment_status = some verified;
  reconciliation = record in_flight_row.reconciliation { stock_verified = some true };
}

linked-is : linked ≡ some linked_row
unfolding finalize_invoice claim_auto_invoice check_invoice payment_status_of verify_stock_movement
    ◌+ℤ◌ ◌-ℤ◌
linked-is = refl

row_reached : RowReach none (some linked_row)
row_reached = subst (RowReach none) linked-is linked_reached

-- A recovery claims the row, sends its request and gets the id 31; then a late search finds more.
abbrev recovery : RecoveryClaim
recovery = record {
  linking = false;
  order = (8, codes "DH8");
  expected_total = some (pos 1450);
  reconciliation = no_reconciliation;
}

abbrev sent_row : MaybeRow
sent_row = (mark_auto_invoice_sending 1 no_reconciliation (claim_recovery 0 1 true recovery none)).0

abbrev answered_world : LinkWorld
answered_world = record { row = record_invoice_created 1 31 sent_row; answered = 1 ∷ [] }

answered_reached : LinkReach no_invoice answered_world
answered_reached =
    then_step
      (then_step (then_step start (recover 0 1 true recovery))
        (statement (mark_sending 1 no_reconciliation)))
      (answer 1 31 refl)

is_answered : linked_invoice answered_world.row ≡ some 31
unfolding record_invoice_created claim_recovery mark_auto_invoice_sending
is_answered = refl

link_stays_example : linked_invoice (record_invoices_found 1 answered_world.row) ≡ some 31
link_stays_example = link_stays 31 answered_reached is_answered (then_step start (find_more 1))
