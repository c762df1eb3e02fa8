-- ===== src/Returns/Process/Due.antt =====
-- When a refund is requested for a return.
use store_kiotviet.Base.{
  ℕ, ◌≡◌, refl, sym, ◌∙◌, arith, Bool, true, false, Option, none, some, List, [], ◌∷◌, Result, ok,
  err, if◌then◌else◌,
}
use store_kiotviet.Returns.{Returned, RefundLine, ExistingRefund}
use store_kiotviet.Returns.Lines.{match_return_lines}
use store_kiotviet.Returns.Refunds.{classify_existing_refunds, expected_amount}
use store_kiotviet.Returns.Payments.{Transaction, Part, refund_transactions}
use store_kiotviet.Returns.Row.{
  Row, Claim, done, review, busy, claimed, reconcile, decide_return_claim, claim_return, is_mine,
}
use store_kiotviet.Returns.Process.{
  Evidence, return_not_completed, ReturnSyncResult, Plan, duplicate, unverified, no_payment,
  insufficient, wait, outcome_unknown, link, refuse, send, plan_parts, plan_money, plan_lines,
  plan_refund, plan_sent, plan_unlinked, plan_ours, plan_return, RefundReply, accepted, rejected,
  unknown, Request, Outcome, after_reply, carry_out, process_claimed_return, run_claim, run_located,
  Source, source_order, sync_kiot_viet_return,
}

-- What must hold of a return for this request to be sent.
pub record IsDue (r : Returned) (ev : Evidence) (q : Request) : Type 0 where
  pub unrefunded :
      classify_existing_refunds ev.note r ev.refunds ev.linked_elsewhere
      ≡ record { ours = []; suspicious = [] }
  pub amount : expected_amount r ≡ some q.amount
  pub lines : match_return_lines ev.precedes r.return_details ev.lines ≡ ok q.lines
  pub payments :
      (ts : List Transaction) × (ev.transactions ≡ ok ts)
      × (refund_transactions ts q.amount ≡ some q.transactions)

abbrev request : ℕ → List RefundLine → List Part → Request
request amount lines parts = record { amount = amount; lines = lines; transactions = parts }

plan_parts-send :
    (a n : ℕ) (ls out : List RefundLine) (ps : List Part) (m : Option (List Part))
    → plan_parts a ls m ≡ send n out ps
    → (a ≡ n) × (ls ≡ out) × (m ≡ some ps)
unfolding plan_parts
plan_parts-send a n ls out ps none h = cc
plan_parts-send a n ls out ps (some parts) h = (cc, cc, cc)

plan_money-send :
    (a n : ℕ) (ls out : List RefundLine) (ps : List Part) (m : Result (List Transaction))
    → plan_money a ls m ≡ send n out ps
    → (a ≡ n)
      × (ls ≡ out)
      × (ts : List Transaction) × (m ≡ ok ts)
      × (refund_transactions ts a ≡ some ps)
unfolding plan_money
plan_money-send a n ls out ps (err e) h = cc
plan_money-send a n ls out ps (ok ts) h =
    let (x, y, z) = plan_parts-send a n ls out ps (refund_transactions ts a) h in
    (x, y, ts, refl, z)

plan_lines-send :
    (a n : ℕ) (out : List RefundLine) (ps : List Part) (m : Result (List Transaction))
    (ls : Result (List RefundLine))
    → plan_lines m a ls ≡ send n out ps
    → (a ≡ n)
      × (ls ≡ ok out)
      × (ts : List Transaction) × (m ≡ ok ts)
      × (refund_transactions ts a ≡ some ps)
unfolding plan_lines
plan_lines-send a n out ps m (err e) h = cc
plan_lines-send a n out ps m (ok []) h = cc
plan_lines-send a n out ps m (ok (l ∷ ls)) h =
    let (x, y, ts, z, w) = plan_money-send a n (l ∷ ls) out ps m h in (x, rw y refl, ts, z, w)

plan_refund-IsDue :
    (r : Returned) (ev : Evidence) (n : ℕ) (out : List RefundLine) (ps : List Part) (a : Option ℕ)
    → plan_refund r ev a ≡ send n out ps
    → classify_existing_refunds ev.note r ev.refunds ev.linked_elsewhere
      ≡ record { ours = []; suspicious = [] }
    → expected_amount r ≡ a
    → IsDue r ev (request n out ps)
unfolding plan_refund
plan_refund-IsDue r ev n out ps none h c e = cc
plan_refund-IsDue r ev n out ps (some a) h c e =
    let (x, y, ts, z, w) =
      plan_lines-send a n out ps ev.transactions
        (match_return_lines ev.precedes r.return_details ev.lines) h in
    record { unrefunded = c; amount = e ∙ rw x refl; lines = y; payments = (ts, z, rw (sym x) w) }

plan_ours-IsDue :
    (now : ℕ) (r : Returned) (ev : Evidence) (n : ℕ) (out : List RefundLine) (ps : List Part)
    (c : Claim) (ours bad : List ExistingRefund)
    → plan_ours now r ev c ours bad ≡ send n out ps
    → classify_existing_refunds ev.note r ev.refunds ev.linked_elsewhere
      ≡ record { ours = ours; suspicious = bad }
    → IsDue r ev (request n out ps)
unfolding plan_ours plan_unlinked plan_sent
plan_ours-IsDue now r ev n out ps c (x ∷ []) bad h k = cc
plan_ours-IsDue now r ev n out ps c (x ∷ y ∷ l) bad h k = cc
plan_ours-IsDue now r ev n out ps (reconcile t) [] bad h k = ground arith
plan_ours-IsDue now r ev n out ps (done t) [] [] h k =
    plan_refund-IsDue r ev n out ps (expected_amount r) h k refl
plan_ours-IsDue now r ev n out ps review [] [] h k =
    plan_refund-IsDue r ev n out ps (expected_amount r) h k refl
plan_ours-IsDue now r ev n out ps busy [] [] h k =
    plan_refund-IsDue r ev n out ps (expected_amount r) h k refl
plan_ours-IsDue now r ev n out ps claimed [] [] h k =
    plan_refund-IsDue r ev n out ps (expected_amount r) h k refl
plan_ours-IsDue now r ev n out ps (done t) [] (b ∷ bad) h k = cc
plan_ours-IsDue now r ev n out ps review [] (b ∷ bad) h k = cc
plan_ours-IsDue now r ev n out ps busy [] (b ∷ bad) h k = cc
plan_ours-IsDue now r ev n out ps claimed [] (b ∷ bad) h k = cc

pub carry_out-sent :
    (now token : ℕ) (reply : RefundReply) (plan : Plan) (row : Row) (q : Request)
    → (carry_out now token reply plan row).sent ≡ some q
    → (plan ≡ send q.amount q.lines q.transactions) × (is_mine token row ≡ true)
unfolding carry_out after_reply
carry_out-sent now token reply duplicate row q h = cc
carry_out-sent now token reply unverified row q h = cc
carry_out-sent now token reply no_payment row q h = cc
carry_out-sent now token reply insufficient row q h = cc
carry_out-sent now token reply wait row q h = cc
carry_out-sent now token reply outcome_unknown row q h = cc
carry_out-sent now token reply (link refund matches) row q h = cc
carry_out-sent now token reply (refuse e) row q h = cc
carry_out-sent now token (accepted id) (send amount lines parts) row q h =
    (ground arith, ground arith)
carry_out-sent now token (rejected e) (send amount lines parts) row q h =
    (ground arith, ground arith)
carry_out-sent now token unknown (send amount lines parts) row q h = (ground arith, ground arith)

process_claimed_return-sent :
    (now token : ℕ) (r : Returned) (ev : Result Evidence) (c : Claim) (reply : RefundReply)
    (row : Row) (q : Request)
    → (process_claimed_return now token r ev c reply row).sent ≡ some q
    → (e : Evidence) × (ev ≡ ok e) × IsDue r e q × (is_mine token row ≡ true)
unfolding process_claimed_return plan_return
process_claimed_return-sent now token r (err e) c reply row q h = cc
process_claimed_return-sent now token r (ok ev) c reply row q h =
    let (plan, mine) = carry_out-sent now token reply (plan_return now r ev c) row q h in
    (ev, refl, plan_ours-IsDue now r ev q.amount q.lines q.transactions c _ _ plan refl, mine)

-- A claim to reconcile does not make the row ready to be sent.
reconcile-other :
    (now token : ℕ) (t : Option ℕ) (row : Row)
    → decide_return_claim now row ≡ reconcile t
    → is_mine token (claim_return now token row) ≡ false
unfolding decide_return_claim claim_return
reconcile-other now token t none h = cc
reconcile-other now token t (some r) h = ground arith

run_claim-sent :
    (now token : ℕ) (r : Returned) (ev : Result Evidence) (reply : RefundReply) (row : Row)
    (c : Claim) (q : Request)
    → (run_claim now token r ev reply row c).sent ≡ some q
    → decide_return_claim now row ≡ c
    → (e : Evidence) × (ev ≡ ok e) × IsDue r e q × (decide_return_claim now row ≡ claimed)
unfolding run_claim
run_claim-sent now token r ev reply row (done id) q h k = cc
run_claim-sent now token r ev reply row review q h k = cc
run_claim-sent now token r ev reply row busy q h k = cc
run_claim-sent now token r ev reply row claimed q h k =
    let (e, x, y, z) = process_claimed_return-sent now token r ev claimed reply _ q h in
    (e, x, y, k)
run_claim-sent now token r ev reply row (reconcile t) q h k =
    let (e, x, y, z) = process_claimed_return-sent now token r ev (reconcile t) reply _ q h in
    let other = reconcile-other now token t row k in cc

-- A whole job is the claimed part, or it stops before and leaves the row as it is.
pub sync_kiot_viet_return-cases :
    (P : Outcome → Type 0) (now token : ℕ) (r : Returned) (source : Source) (ev : Result Evidence)
    (reply : RefundReply) (row : Row)
    → ((result : Result ReturnSyncResult) → P (record { result = result; row = row; sent = none }))
    → P (run_claim now token r ev reply row (decide_return_claim now row))
    → P (sync_kiot_viet_return now token r source ev reply row)
unfolding sync_kiot_viet_return run_located
sync_kiot_viet_return-cases P now token r source ev reply row stop run =
    go r.is_completed (source_order r source)
  where
    go :
        (b : Bool) (o : Result ℕ)
        → P (
            if b
            then run_located now token r o ev reply row
            else record { result = ok return_not_completed; row = row; sent = none })
    go false o = stop (ok return_not_completed)
    go true (err e) = stop (err e)
    go true (ok o) = run

-- A job for a return sends a refund only when the claim was free, no refund of the order is that of
-- the return or may be, the amount is the expected one, and the lines and the transactions of the
-- request are those that were matched for it.
pub sync_kiot_viet_return_sent :
    (now token : ℕ) (r : Returned) (source : Source) (ev : Result Evidence) (reply : RefundReply)
    (row : Row) (q : Request)
    → (sync_kiot_viet_return now token r source ev reply row).sent ≡ some q
    → (e : Evidence) × (ev ≡ ok e) × IsDue r e q × (decide_return_claim now row ≡ claimed)
sync_kiot_viet_return_sent now token r source ev reply row q =
    sync_kiot_viet_return-cases
      (λ out.
        out.sent ≡ some q
        → (e : Evidence) × (ev ≡ ok e) × IsDue r e q × (decide_return_claim now row ≡ claimed))
      now token r source ev reply row (λ result h. cc)
      (λ h. run_claim-sent now token r ev reply row _ q h refl)
