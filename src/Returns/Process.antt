-- ===== src/Returns/Process.antt =====
-- lib/sync/return-sync.ts: what a job that holds the claim of a return does, and the whole job.
-- The refunds and lines of the Shopify order and every reply are arguments.
pub mod Due
pub mod Settled
use store_kiotviet.Base.{
  ℕ, ◌-◌, Bool, true, false, Option, none, some, List, [], ◌∷◌, Result, ok, err, AppError,
  if◌then◌else◌, ltb, or_else, is_some, not, throw_if, ◌>>◌,
}
use store_kiotviet.Base.Int.{ℤ, pos, eqb_ℤ}
use store_kiotviet.Text.{Text}
use store_kiotviet.Returns.{Returned, RefundableLine, RefundLine, ExistingRefund}
use store_kiotviet.Returns.Lines.{match_return_lines}
use store_kiotviet.Returns.Refunds.{Classified, classify_existing_refunds, expected_amount, cents}
use store_kiotviet.Returns.Payments.{Transaction, Part, refund_transactions}
use store_kiotviet.Returns.Row.{
  Row, Status, financial_refunded, needs_review, failed, Claim, done, review, busy, claimed,
  reconcile, decide_return_claim, claim_return, set_state, drop_claim, release, keep_amount,
  is_mine, mark_sending, return_send_verify_ms,
}

-- `linked_elsewhere`: the refunds of the order's other returns. The transactions are read last.
pub record Evidence : Type 0 where
  pub note : Text
  pub refunds : List ExistingRefund
  pub lines : List RefundableLine
  pub linked_elsewhere : List ℕ
  pub precedes : ℕ → ℕ → Bool
  pub transactions : Result (List Transaction)

-- What the checks before refundCreate lead to.
pub data Plan : Type 0 where
  duplicate unverified no_payment insufficient wait outcome_unknown : Plan
  link : (refund : ExistingRefund) (amount_matches : Bool) → Plan
  refuse : AppError → Plan
  send : (amount : ℕ) → List RefundLine → List Part → Plan

abbrev pub same_amount : Option ℕ → ExistingRefund → Bool
same_amount none refund = false
same_amount (some amount) refund = eqb_ℤ (cents refund.total_refunded) (pos amount)

plan_parts : ℕ → List RefundLine → Option (List Part) → Plan
plan_parts amount lines none = insufficient
plan_parts amount lines (some parts) = send amount lines parts

plan_money : ℕ → List RefundLine → Result (List Transaction) → Plan
unfolding plan_parts
plan_money amount lines (err e) = refuse e
plan_money amount lines (ok transactions) =
    plan_parts amount lines (refund_transactions transactions amount)

plan_lines : Result (List Transaction) → ℕ → Result (List RefundLine) → Plan
unfolding plan_money
plan_lines transactions amount (err e) = refuse e
plan_lines transactions amount (ok []) = refuse AppError.validation
plan_lines transactions amount (ok (line ∷ lines)) = plan_money amount (line ∷ lines) transactions

plan_refund : Returned → Evidence → Option ℕ → Plan
unfolding plan_lines
plan_refund r ev none = no_payment
plan_refund r ev (some amount) =
    plan_lines ev.transactions amount (match_return_lines ev.precedes r.return_details ev.lines)

-- A request may have been sent: it is never sent again.
plan_sent : (now : ℕ) → (sent_at : Option ℕ) → Plan
plan_sent now sent_at =
    if ltb (now - or_else sent_at 0) return_send_verify_ms then wait else outcome_unknown

plan_unlinked : ℕ → Returned → Evidence → Claim → List ExistingRefund → Plan
unfolding plan_refund plan_sent
plan_unlinked now r ev (reconcile sent_at) suspicious = plan_sent now sent_at
plan_unlinked now r ev _ [] = plan_refund r ev (expected_amount r)
plan_unlinked now r ev _ (s ∷ suspicious) = unverified

plan_ours : ℕ → Returned → Evidence → Claim → List ExistingRefund → List ExistingRefund → Plan
unfolding plan_unlinked
plan_ours now r ev claim [] suspicious = plan_unlinked now r ev claim suspicious
plan_ours now r ev claim (refund ∷ []) suspicious =
    link refund (same_amount (expected_amount r) refund)
plan_ours now r ev claim (refund ∷ other ∷ more) suspicious = duplicate

unfoldable pub plan_return : ℕ → Returned → Evidence → Claim → Plan
unfolding plan_ours
plan_return now r ev claim =
    let found = classify_existing_refunds ev.note r ev.refunds ev.linked_elsewhere in
    plan_ours now r ev claim found.ours found.suspicious

-- The reply to refundCreate. `rejected` is what Shopify answered with user errors or a status of
-- 400 to 499, a failed login or a rate limit: nothing was created.
pub data RefundReply : Type 0 where
  accepted : (refund_id : ℕ) → RefundReply
  rejected : AppError → RefundReply
  unknown : RefundReply

pub data ReturnSyncResult : Type 0 where
  created : (refund_id amount : ℕ) → ReturnSyncResult
  linked_existing_refund : (refund_id : ℕ) → ReturnSyncResult
  already_refunded : Option ℕ → ReturnSyncResult
  for_review claim_lost return_not_completed : ReturnSyncResult

-- The request of refundCreate.
pub record Request : Type 0 where
  pub amount : ℕ
  pub lines : List RefundLine
  pub transactions : List Part

-- The result, the row that is left, and the request that was sent.
pub record Outcome : Type 0 where
  pub result : Result ReturnSyncResult
  pub row : Row
  pub sent : Option Request

abbrev nothing_sent : Result ReturnSyncResult → Row → Outcome
nothing_sent result row = record { result = result; row = row; sent = none }

-- An exception releases the claim.
abbrev thrown : ℕ → AppError → Row → Outcome
thrown token e row = nothing_sent (err e) (release token row)

abbrev to_review : ℕ → Row → Outcome
to_review token row = nothing_sent (ok for_review) (set_state token needs_review none row)

after_reply : ℕ → Request → RefundReply → Row → Outcome
after_reply token request (accepted id) row = record {
  result = ok (created id request.amount);
  row = set_state token financial_refunded (some id) row;
  sent = some request;
}
after_reply token request (rejected e) row = record {
  result = err e;
  row = release token (set_state token failed none row);
  sent = some request;
}
after_reply token request unknown row = record {
  result = err AppError.retryable;
  row = release token (drop_claim token row);
  sent = some request;
}

link_refund : ℕ → ExistingRefund → Bool → Row → Row
link_refund token refund matches row =
    set_state token (if matches then financial_refunded else needs_review) (some refund.id)
      (keep_amount token refund.total_refunded row)

unfoldable pub carry_out : (now token : ℕ) → RefundReply → Plan → Row → Outcome
unfolding after_reply link_refund
carry_out now token reply duplicate row = to_review token row
carry_out now token reply unverified row = to_review token row
carry_out now token reply no_payment row = to_review token row
carry_out now token reply insufficient row = to_review token row
carry_out now token reply outcome_unknown row = to_review token row
carry_out now token reply wait row = thrown token AppError.retryable (drop_claim token row)
carry_out now token reply (refuse e) row = thrown token e row
carry_out now token reply (link refund matches) row =
    nothing_sent (ok (linked_existing_refund refund.id)) (link_refund token refund matches row)
carry_out now token reply (send amount lines parts) row =
    if is_mine token row
    then after_reply token (record { amount = amount; lines = lines; transactions = parts }) reply
        (mark_sending now token amount row)
    else nothing_sent (ok claim_lost) row

-- `evidence` is an error where Shopify or the table could not be read.
unfoldable pub process_claimed_return :
    (now token : ℕ) → Returned → (evidence : Result Evidence) → Claim → RefundReply → Row → Outcome
unfolding carry_out
process_claimed_return now token r (err e) claim reply row = thrown token e row
process_claimed_return now token r (ok ev) claim reply row =
    carry_out now token reply (plan_return now r ev claim) row

pub run_claim : (now token : ℕ) → Returned → Result Evidence → RefundReply → Row → Claim → Outcome
unfolding process_claimed_return
run_claim now token r ev reply row (done id) = nothing_sent (ok (already_refunded id)) row
run_claim now token r ev reply row review = nothing_sent (ok for_review) row
run_claim now token r ev reply row busy = nothing_sent (err AppError.retryable) row
run_claim now token r ev reply row claim =
    process_claimed_return now token r ev claim reply (claim_return now token row)

-- What the lookups before the claim gave: the order code of the invoice and the mapped orders.
pub record Source : Type 0 where
  pub order_code : Option Text
  pub mapped : List ℕ

-- The Shopify order of a return, unless it is not uniquely known.
abbrev pub source_order : Returned → Source → Result ℕ
source_order r s =
    throw_if (not (is_some r.invoice_id)) AppError.mapping
    >> throw_if (not (is_some s.order_code)) AppError.mapping
    >> sole_order s.mapped
  where
    sole_order : List ℕ → Result ℕ
    sole_order (id ∷ []) = ok id
    sole_order _ = err AppError.mapping

pub run_located :
    (now token : ℕ) → Returned → Result ℕ → Result Evidence → RefundReply → Row → Outcome
unfolding run_claim
run_located now token r (err e) ev reply row = nothing_sent (err e) row
run_located now token r (ok order) ev reply row =
    run_claim now token r ev reply row (decide_return_claim now row)

unfoldable pub sync_kiot_viet_return :
    (now token : ℕ) → Returned → Source → Result Evidence → RefundReply → Row → Outcome
unfolding run_located
sync_kiot_viet_return now token r source ev reply row =
    if r.is_completed
    then run_located now token r (source_order r source) ev reply row
    else nothing_sent (ok return_not_completed) row
