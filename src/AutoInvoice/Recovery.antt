-- ===== src/AutoInvoice/Recovery.antt =====
-- The statements on the row of invoice_mappings of applyInvoiceRecovery and settleUncertainInvoice
-- in lib/recovery/kiotviet-invoice-recovery.ts. Marking the row as creating is the statement of
-- markAutoInvoiceSending.
use store_kiotviet.Base.{
  ℕ, ◌+◌, Bool, false, ◌&&◌, ◌||◌, not, Option, none, some, if◌then◌else◌, ltb, is_some,
}
use store_kiotviet.Base.Int.{ℤ}
use store_kiotviet.Text.{Text}
use store_kiotviet.AutoInvoice.{
  InvoiceRow, MaybeRow, InvoiceStatus, other_stage, verify_invoice, unverified,
  InvoiceReconciliation, is_pending, is_open, holds, update_row, new_row,
}

abbrev pub is_linked : InvoiceRow → Bool
is_linked r = is_some r.kiot_viet_invoice_id

-- `same_version` is whether the row is still the one of the plan.
unfoldable pub reset_uncertain : (same_version : Bool) → MaybeRow → MaybeRow
reset_uncertain same_version =
    update_row (λ r. not (is_linked r) && same_version)
      (λ r. record r {
        status = InvoiceStatus.failed;
        claim_token = none;
        failure_stage = some other_stage;
      })

-- What the claim of a recovery writes.
pub record RecoveryClaim : Type 0 where
  pub linking : Bool
  pub order : ℕ × Text
  pub expected_total : Option ℤ
  pub reconciliation : InvoiceReconciliation

abbrev lease_ms : ℕ
lease_ms = 300000

abbrev is_stale : ℕ → Option ℕ → Bool
is_stale now none = false
is_stale now (some t) = ltb (t + lease_ms) now

abbrev claimed_row : (now token : ℕ) → RecoveryClaim → InvoiceRow → InvoiceRow
claimed_row now token c r = record r {
  kiot_viet_order = some c.order;
  status = InvoiceStatus.pending;
  claim_token = some token;
  claimed_at = some now;
  expected_total = c.expected_total;
  reconciliation = c.reconciliation;
  failure_stage = none;
}

unfoldable pub claim_recovery :
    (now token : ℕ) (same_version : Bool) → RecoveryClaim → MaybeRow → MaybeRow
claim_recovery now token same_version c none = some (claimed_row now token c (new_row now))
claim_recovery now token same_version c (some r) = some (
    if not (is_linked r)
      && same_version
      && (is_open r.status || c.linking || is_pending r.status && is_stale now r.claimed_at)
    then claimed_row now token c r
    else r)

-- Nothing was sent: failed, or blocked.
unfoldable pub release_recovery : ℕ → (blocks : Bool) → MaybeRow → MaybeRow
release_recovery token blocks =
    update_row (λ r. holds token r.claim_token && is_pending r.status)
      (λ r. record r {
        status = if blocks then InvoiceStatus.blocked else InvoiceStatus.failed;
        claim_token = none;
        failure_stage = some other_stage;
      })

unfoldable pub record_invoice_rejected : ℕ → MaybeRow → MaybeRow
record_invoice_rejected token =
    update_row (λ r. holds token r.claim_token)
      (λ r. record r {
        status = InvoiceStatus.failed;
        claim_token = none;
        failure_stage = some other_stage;
      })

unfoldable pub record_invoice_uncertain : ℕ → MaybeRow → MaybeRow
record_invoice_uncertain token =
    update_row (λ r. holds token r.claim_token) (λ r. record r { failure_stage = some other_stage })

abbrev linked_to : ℕ → InvoiceRow → InvoiceRow
linked_to id r = record r {
  kiot_viet_invoice_id = some id;
  status = InvoiceStatus.needs_review;
  failure_stage = some verify_invoice;
  payment_status = some unverified;
}

-- KiotViet answered with the id of the new invoice: no guard but the claim.
unfoldable pub record_invoice_created : (token id : ℕ) → MaybeRow → MaybeRow
record_invoice_created token id = update_row (λ r. holds token r.claim_token) (linked_to id)

-- A search after an unknown outcome found one invoice, or several.
unfoldable pub record_invoice_found : (token id : ℕ) → MaybeRow → MaybeRow
record_invoice_found token id =
    update_row (λ r. holds token r.claim_token && not (is_linked r)) (linked_to id)

unfoldable pub record_invoices_found : ℕ → MaybeRow → MaybeRow
record_invoices_found token =
    update_row (λ r. holds token r.claim_token && not (is_linked r))
      (λ r. record r {
        status = InvoiceStatus.needs_review;
        claim_token = none;
        failure_stage = some verify_invoice;
      })
