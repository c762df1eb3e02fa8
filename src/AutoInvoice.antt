-- ===== src/AutoInvoice.antt =====
-- lib/sync/invoice-sync.ts: the row of invoice_mappings of one order, the invoice that is requested
-- with the order, and the statements that move the row, each atomic with its WHERE clause.
pub mod Movement
pub mod Checks
pub mod Finalize
pub mod Eligible
pub mod Recovery
pub mod Samples
mod Tests
use store_kiotviet.Base.{
  ℕ, Bool, true, false, ◌&&◌, ◌||◌, not, Option, none, some, List, [], ◌∷◌, Result, ok, err,
  AppError, ◌>>=◌, if◌then◌else◌, ◌==◌, is_some,
}
use store_kiotviet.Base.Int.{ℤ}
use store_kiotviet.Text.{Text}

pub data InvoiceStatus : Type 0 where
  pending creating created blocked failed needs_review : InvoiceStatus

pub data Stage : Type 0 where
  eligibility create_kiotviet_order verify_invoice fulfillment_trigger automatic_validation
        invoice_index invoice_index_retried shopify_inventory other_stage :
      Stage

pub data PaymentStatus : Type 0 where
  verified mismatch not_applicable unverified : PaymentStatus

-- Quantities and stocks are thousandths of a unit, amounts cents.
pub record ExpectedLine : Type 0 where
  pub product_id : ℕ
  pub quantity : ℕ
  pub price : ℤ

-- The stock of each product at a branch; `none` where KiotViet has no row for it.
abbrev pub Stock : Type 0
Stock = List (ℕ × Option ℤ)

pub record InvoiceReconciliation : Type 0 where
  pub branch_id : Option ℕ
  pub expected_lines : List ExpectedLine
  pub stock_before : Stock
  pub stock_verified : Option Bool
  pub prepaid : ℤ
  pub shipping_total : ℤ
  pub expected_payment_total : Option ℤ
  pub is_product_only_mode : Bool
  pub has_manual_override : Bool
  pub validation_reasons : Option (List Text)
  pub approved_warnings : Option (List Text)
  pub has_remaining_differences : Bool

pub record InvoiceRow : Type 0 where
  pub kiot_viet_order : Option (ℕ × Text)
  pub kiot_viet_invoice_id : Option ℕ
  pub status : InvoiceStatus
  pub claim_token : Option ℕ
  pub claimed_at : Option ℕ
  pub created_at : ℕ
  pub expected_total : Option ℤ
  pub failure_stage : Option Stage
  pub payment_status : Option PaymentStatus
  pub reconciliation : InvoiceReconciliation

abbrev pub MaybeRow : Type 0
MaybeRow = Option InvoiceRow

abbrev pub no_reconciliation : InvoiceReconciliation
no_reconciliation = record {
  branch_id = none;
  expected_lines = [];
  stock_before = [];
  stock_verified = none;
  prepaid = ℤ.pos 0;
  shipping_total = ℤ.pos 0;
  expected_payment_total = none;
  is_product_only_mode = false;
  has_manual_override = false;
  validation_reasons = none;
  approved_warnings = none;
  has_remaining_differences = false;
}

abbrev pub is_pending : InvoiceStatus → Bool
is_pending InvoiceStatus.pending = true
is_pending _ = false

abbrev pub is_creating : InvoiceStatus → Bool
is_creating InvoiceStatus.creating = true
is_creating _ = false

-- The states from which an invoice may be requested.
abbrev pub is_open : InvoiceStatus → Bool
is_open InvoiceStatus.failed = true
is_open InvoiceStatus.blocked = true
is_open _ = false

abbrev pub holds : ℕ → Option ℕ → Bool
holds token none = false
holds token (some t) = t == token

abbrev pub update_row : (InvoiceRow → Bool) → (InvoiceRow → InvoiceRow) → MaybeRow → MaybeRow
update_row test change none = none
update_row test change (some r) = some (if test r then change r else r)

-- decideAutoInvoice gives this; the expected payment is none where no financials were judged.
pub record AutoInvoiceDecision : Type 0 where
  pub enabled : Bool
  pub request : Bool
  pub expected_payment : Option ℤ

abbrev claimed_row : (now token : ℕ) → AutoInvoiceDecision → InvoiceRow → InvoiceRow
claimed_row now token d r = record r {
  status = if d.request then InvoiceStatus.pending else InvoiceStatus.blocked;
  claim_token = some token;
  claimed_at = some now;
  expected_total = d.expected_payment;
  failure_stage = if d.request then none else some eligibility;
}

abbrev pub new_row : ℕ → InvoiceRow
new_row now = record {
  kiot_viet_order = none;
  kiot_viet_invoice_id = none;
  status = InvoiceStatus.pending;
  claim_token = none;
  claimed_at = none;
  created_at = now;
  expected_total = none;
  failure_stage = none;
  payment_status = none;
  reconciliation = no_reconciliation;
}

abbrev may_claim : InvoiceRow → Bool
may_claim r = not (is_some r.kiot_viet_invoice_id) && (is_pending r.status || is_open r.status)

-- claimAutoInvoice: the row, and whether this job owns a pending invoice.
unfoldable pub claim_auto_invoice :
    (now token : ℕ) → AutoInvoiceDecision → MaybeRow → MaybeRow × Bool
claim_auto_invoice now token d none =
    if d.enabled then (some (claimed_row now token d (new_row now)), d.request) else (none, false)
claim_auto_invoice now token d (some r) =
    if d.enabled && may_claim r
    then (some (claimed_row now token d r), d.request)
    else (some r, false)

abbrev pending_of : ℕ → InvoiceRow → Bool
pending_of token r = is_pending r.status && holds token r.claim_token

unfoldable pub block_auto_invoice : ℕ → Stage → MaybeRow → MaybeRow
block_auto_invoice token stage = update_row (pending_of token) (λ r. record r {
  status = InvoiceStatus.blocked;
  claim_token = none;
  failure_stage = some stage;
})

-- markAutoInvoiceSending: the row, and whether the claim was still held.
unfoldable pub mark_auto_invoice_sending : ℕ → InvoiceReconciliation → MaybeRow → MaybeRow × Bool
mark_auto_invoice_sending token rec none = (none, false)
mark_auto_invoice_sending token rec (some r) =
    if pending_of token r
    then (some (record r { status = InvoiceStatus.creating; reconciliation = rec }), true)
    else (some r, false)

unfoldable pub fail_auto_invoice : ℕ → MaybeRow → MaybeRow
fail_auto_invoice token =
    update_row (λ r. (is_pending r.status || is_creating r.status) && holds token r.claim_token)
      (λ r. record r {
        status = InvoiceStatus.failed;
        claim_token = none;
        failure_stage = some create_kiotviet_order;
      })

unfoldable pub attach_kiot_viet_order_to_invoice : ℕ × Text → MaybeRow → MaybeRow
attach_kiot_viet_order_to_invoice order =
    update_row (λ r. not (is_some r.kiot_viet_order))
      (λ r. record r { kiot_viet_order = some order })

unfoldable pub mark_needs_review : Stage → MaybeRow → MaybeRow
mark_needs_review stage =
    update_row (λ r. not (is_some r.kiot_viet_invoice_id))
      (λ r. record r {
        status = InvoiceStatus.needs_review;
        claim_token = none;
        failure_stage = some stage;
      })

-- hasAppInvoice
unfoldable pub has_app_invoice : MaybeRow → Bool
has_app_invoice none = false
has_app_invoice (some r) = not (is_open r.status)
