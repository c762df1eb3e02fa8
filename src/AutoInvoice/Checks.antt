-- ===== src/AutoInvoice/Checks.antt =====
-- finalizeInvoice of lib/sync/invoice-sync.ts: what is checked of an invoice that KiotViet has.
use store_kiotviet.Base.{
  ℕ, Bool, true, false, ◌&&◌, ◌||◌, not, Option, none, some, List, if◌then◌else◌, ◌==◌, or_else,
  all_of, any_of, is_some, is_empty, length,
}
use store_kiotviet.Base.Int.{ℤ, pos, ◌-ℤ◌, eqb_ℤ, ltb_ℤ, sum_ℤ}
use store_kiotviet.Text.{Text, text_eq, has_text}
use store_kiotviet.OverrideRules.{invoice_reason_code}
use store_kiotviet.AutoInvoice.{
  ExpectedLine, InvoiceReconciliation, InvoiceRow, PaymentStatus, verified, mismatch,
  not_applicable,
}

pub record DetailLine : Type 0 where
  pub product_id : ℕ
  pub quantity : ℕ
  pub price : ℤ
  pub discount : ℤ

-- The invoice as KiotViet returns it, amounts as `cents` reads them.
pub record InvoiceDetail : Type 0 where
  pub id : ℕ
  pub branch_id : Option ℕ
  pub lines : List DetailLine
  pub order_code : Option Text
  pub is_completed : Bool
  pub total : ℤ
  pub total_payment : ℤ
  pub payments : Option (List ℤ)
  pub surcharges : List ℤ

abbrev same_id : Option ℕ → Option ℕ → Bool
same_id (some a) (some b) = a == b
same_id _ _ = false

abbrev same_code : Option Text → Text → Bool
same_code none code = false
same_code (some c) code = text_eq c code

abbrev pub is_approved : Option (List Text) → Text → Bool
is_approved none reason = false
is_approved (some warnings) reason = has_text (invoice_reason_code reason) warnings

abbrev pub reasons_approved : InvoiceReconciliation → Bool
reasons_approved r = elim r.validation_reasons [
  | none ↦ true
  | some reasons ↦ all_of (is_approved r.approved_warnings) reasons
]

abbrev pub is_line : ExpectedLine → DetailLine → Bool
is_line e d =
    d.product_id == e.product_id
    && d.quantity == e.quantity
    && eqb_ℤ d.price e.price
    && eqb_ℤ d.discount (pos 0)

abbrev pub lines_match : List ExpectedLine → List DetailLine → Bool
lines_match expected actual =
    not (is_empty actual)
    && not (is_empty expected)
    && length actual == length expected
    && all_of (λ e. any_of (is_line e) actual) expected

abbrev pub is_product_only : InvoiceReconciliation → Bool
is_product_only r = r.is_product_only_mode && not r.has_manual_override

-- The total may come with or without the shipping surcharge.
abbrev pub total_matches : InvoiceReconciliation → Option ℤ → InvoiceDetail → Bool
total_matches r none d = false
total_matches r (some expected) d =
    if is_product_only r
    then eqb_ℤ d.total expected && eqb_ℤ (sum_ℤ d.surcharges) (pos 0)
    else eqb_ℤ d.total expected
      || ltb_ℤ (pos 0) r.shipping_total
        && eqb_ℤ d.total (expected -ℤ r.shipping_total)
        && eqb_ℤ (sum_ℤ d.surcharges) r.shipping_total

-- An approved override may leave a balance.
abbrev pub expected_payment : InvoiceRow → ℤ
expected_payment row =
    or_else row.reconciliation.expected_payment_total (or_else row.expected_total (pos 0))

abbrev pub payment_records_match : InvoiceReconciliation → InvoiceDetail → Bool
payment_records_match r d = elim d.payments [
  | none ↦ eqb_ℤ r.prepaid (pos 0)
  | some rows ↦ eqb_ℤ (sum_ℤ rows) d.total_payment
]

pub record InvoiceChecks : Type 0 where
  pub branch : Bool
  pub financial_validation : Bool
  pub lines : Bool
  pub order_code : Bool
  pub completed : Bool
  pub total : Bool
  pub payment : Bool
  pub financially_reconciled : Bool
  pub payment_records : Bool

unfoldable pub check_invoice : InvoiceRow → InvoiceDetail → (order_code : Text) → InvoiceChecks
check_invoice row d order_code =
    let r = row.reconciliation in
    record {
      branch = same_id d.branch_id r.branch_id;
      financial_validation = reasons_approved r;
      lines = lines_match r.expected_lines d.lines;
      order_code = same_code d.order_code order_code;
      completed = d.is_completed;
      total = total_matches r row.expected_total d;
      payment = is_some row.expected_total && eqb_ℤ d.total_payment (expected_payment row);
      financially_reconciled = not r.has_remaining_differences;
      payment_records = payment_records_match r d;
    }

-- In Product-Only mode three checks are deleted.
abbrev pub all_passed : (product_only : Bool) → InvoiceChecks → Bool
all_passed product_only c =
    c.branch
    && c.financial_validation
    && c.lines
    && c.order_code
    && c.completed
    && c.total
    && (product_only || c.payment && c.financially_reconciled && c.payment_records)

-- What Product-Only mode records of the payment, and does not block on.
abbrev has_discrepancies : ℤ → InvoiceDetail → Bool
has_discrepancies expected d = not (
    eqb_ℤ d.total_payment expected
    && rows_agree d.payments
    && eqb_ℤ (d.total -ℤ d.total_payment) (pos 0))
  where
    rows_agree : Option (List ℤ) → Bool
    rows_agree none = false
    rows_agree (some rows) = eqb_ℤ (sum_ℤ rows) d.total_payment

unfoldable pub payment_status_of : InvoiceRow → InvoiceDetail → InvoiceChecks → PaymentStatus
payment_status_of row d c =
    if eqb_ℤ (expected_payment row) (pos 0) && eqb_ℤ d.total_payment (pos 0)
    then not_applicable
    else if is_product_only row.reconciliation
    then (if has_discrepancies (expected_payment row) d then mismatch else verified)
    else (if c.payment && c.payment_records then verified else mismatch)
