-- ===== src/AutoInvoice/Finalize.antt =====
-- finalizeInvoice and verifyOrderInvoice of lib/sync/invoice-sync.ts: an invoice that exists is
-- checked and linked; one that was requested without an answer is looked for, never created.
pub mod Verified
use store_kiotviet.Base.{
  ℕ, ◌-◌, Bool, true, false, ◌&&◌, ◌||◌, not, Option, none, some, List, [], ◌∷◌, Result, ok, err,
  AppError, if◌then◌else◌, ◌==◌, ltb, or_else, is_some, is_empty, keep_if,
}
use store_kiotviet.Text.{Text, codes}
use store_kiotviet.AutoInvoice.{
  InvoiceRow, MaybeRow, InvoiceStatus, InvoiceReconciliation, PaymentStatus, Stock, Stage,
  verify_invoice, update_row, mark_needs_review, is_pending, is_creating,
}
use store_kiotviet.AutoInvoice.Movement.{verify_stock_movement}
use store_kiotviet.AutoInvoice.Checks.{
  InvoiceDetail, check_invoice, all_passed, is_product_only, payment_status_of,
}

abbrev names_branch : Option ℕ → Bool
names_branch none = false
names_branch (some id) = not (id == 0)

abbrev has_moved : InvoiceReconciliation → Option Stock → Bool
has_moved r none = false
has_moved r (some after) = verify_stock_movement r.expected_lines r.stock_before after

-- The stock is read after the invoice, unless it is not known where; `none` is a failed read.
unfoldable pub with_stock : InvoiceReconciliation → Option Stock → InvoiceReconciliation
with_stock r after =
    if names_branch r.branch_id && not (is_empty r.expected_lines)
    then record r { stock_verified = some (has_moved r after) }
    else r

abbrev pub is_verified : Option Bool → Bool
is_verified none = false
is_verified (some b) = b

pub record Finalized : Type 0 where
  pub is_ok : Bool
  pub payment_status : PaymentStatus
  pub reconciliation : InvoiceReconciliation

unfoldable pub judge_invoice :
    InvoiceRow → InvoiceDetail → (order_code : Text) → Option Stock → Finalized
unfolding with_stock
judge_invoice row d order_code after =
    let checks = check_invoice row d order_code in
    let r = with_stock row.reconciliation after in
    record {
      is_ok =
          all_passed (is_product_only row.reconciliation) checks && is_verified r.stock_verified;
      payment_status = payment_status_of row d checks;
      reconciliation = r;
    }

abbrev pub may_link : ℕ → InvoiceRow → Bool
may_link id r = elim r.kiot_viet_invoice_id [ none ↦ true | some linked ↦ linked == id ]

abbrev pub link_to : ℕ → ℕ × Text → Finalized → InvoiceRow → InvoiceRow
link_to id order f r = record r {
  kiot_viet_invoice_id = some id;
  status = if f.is_ok then InvoiceStatus.created else InvoiceStatus.needs_review;
  claim_token = none;
  failure_stage = if f.is_ok then none else some verify_invoice;
  kiot_viet_order = some (or_else r.kiot_viet_order order);
  payment_status = some f.payment_status;
  reconciliation = f.reconciliation;
}

-- `read` is the row that the caller read, `row` the one that the statement finds.
unfoldable pub finalize_invoice :
    (read : InvoiceRow) → InvoiceDetail → ℕ × Text → Option Stock → MaybeRow → MaybeRow
unfolding judge_invoice
finalize_invoice read d order after =
    update_row (may_link d.id) (link_to d.id order (judge_invoice read d order.1 after))

-- What the lookup found for the order, and whether it proves that nothing else exists.
pub record InvoiceLookup : Type 0 where
  pub invoices : List (ℕ × Bool)
  pub is_complete : Bool

abbrev not_cancelled : ℕ × Bool → Bool
not_cancelled (id, cancelled) = not cancelled

pub data VerifyResult : Type 0 where
  unchanged : VerifyResult
  finalized : VerifyResult
  retry : VerifyResult
  duplicate_invoice : VerifyResult
  invoice_missing : VerifyResult
  unavailable : AppError → VerifyResult

abbrev pub invoice_verify_window_ms : ℕ
invoice_verify_window_ms = 300000

-- An incomplete lookup becomes a reason that blocks.
abbrev noted : Bool → InvoiceRow → InvoiceRow
noted true row = row
noted false row = record row {
  reconciliation = record row.reconciliation {
    validation_reasons = some (codes "invoice_lookup_incomplete" ∷ []);
  };
}

settle_found :
    (now : ℕ)
    → InvoiceRow
    → ℕ × Text
    → (is_complete : Bool) → Result InvoiceDetail
    → Option Stock
    → List (ℕ × Bool)
    → VerifyResult × MaybeRow
settle_found now row order complete detail after [] =
    if not complete || ltb (now - or_else row.claimed_at row.created_at) invoice_verify_window_ms
    then (retry, some row)
    else (invoice_missing, mark_needs_review verify_invoice (some row))
settle_found now row order complete (err e) after (one ∷ []) = (unavailable e, some row)
settle_found now row order complete (ok d) after (one ∷ []) =
    (finalized, finalize_invoice (noted complete row) d order after (some row))
settle_found now row order complete detail after (one ∷ other ∷ more) =
    (duplicate_invoice, mark_needs_review verify_invoice (some row))

settle_row :
    (now : ℕ)
    → Option (ℕ × Text)
    → Result InvoiceLookup
    → Result InvoiceDetail
    → Option Stock
    → InvoiceRow
    → VerifyResult × MaybeRow
unfolding settle_found
settle_row now none lookup detail after row = (unchanged, some row)
settle_row now (some order) (err e) detail after row = (unavailable e, some row)
settle_row now (some order) (ok l) detail after row =
    if is_pending row.status || is_creating row.status
    then settle_found now row order l.is_complete detail after (keep_if not_cancelled l.invoices)
    else (unchanged, some row)

-- `order` is the linked order of order_mappings, `detail` the invoice that was found.
unfoldable pub verify_order_invoice :
    (now : ℕ)
    → (order : Option (ℕ × Text)) → Result InvoiceLookup
    → Result InvoiceDetail
    → Option Stock
    → MaybeRow
    → VerifyResult × MaybeRow
unfolding settle_row
verify_order_invoice now order lookup detail after none = (unchanged, none)
verify_order_invoice now order lookup detail after (some row) =
    settle_row now order lookup detail after row
