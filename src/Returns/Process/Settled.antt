-- ===== src/Returns/Process/Settled.antt =====
-- Once a refund was requested, no later job requests it again.
use store_kiotviet.Base.{
  ℕ, ◌≡◌, ◌≢◌, refl, arith, Bool, true, false, Option, none, some, Result, ok, err, ◌||◌,
}
use store_kiotviet.Base.Int.{ℤ}
use store_kiotviet.Returns.{Returned}
use store_kiotviet.Returns.Row.{
  Row, Status, financial_refunded, needs_review, Claim, done, review, busy, claimed, reconcile,
  decide_return_claim, claim_return, set_state, drop_claim, release, keep_amount, is_mine,
  mark_sending, is_sending, is_refunded, is_review,
}
use store_kiotviet.Returns.Process.{
  Evidence, link_refund, Plan, duplicate, unverified, no_payment, insufficient, wait,
  outcome_unknown, link, refuse, send, plan_return, RefundReply, accepted, rejected, unknown,
  Request, after_reply, carry_out, process_claimed_return, run_claim, Source, sync_kiot_viet_return,
}
use store_kiotviet.Returns.Process.Due.{
  carry_out-sent, sync_kiot_viet_return-cases, sync_kiot_viet_return_sent,
}

-- A return whose request may have been sent, or that is left to a person.
abbrev pub is_settled : Row → Bool
is_settled none = false
is_settled (some row) = is_sending row.status || is_refunded row.status || is_review row.status

pub settled-unclaimed :
    (now : ℕ) (row : Row) → is_settled row ≡ true → decide_return_claim now row ≢ claimed
unfolding decide_return_claim
settled-unclaimed now none h k = cc
settled-unclaimed now (some r) h k = ground arith

-- Every statement of a job leaves a settled row settled, but the one after a rejection.
pub release-settled :
    (token : ℕ) (row : Row) → is_settled row ≡ true → is_settled (release token row) ≡ true
unfolding release
release-settled token none h = h
release-settled token (some r) h = ground arith

pub drop_claim-settled :
    (token : ℕ) (row : Row) → is_settled row ≡ true → is_settled (drop_claim token row) ≡ true
unfolding drop_claim
drop_claim-settled token none h = h
drop_claim-settled token (some r) h = ground arith

pub keep_amount-settled :
    (token : ℕ) (a : Option ℤ) (row : Row)
    → is_settled row ≡ true
    → is_settled (keep_amount token a row) ≡ true
unfolding keep_amount
keep_amount-settled token a none h = h
keep_amount-settled token a (some r) h = ground arith

abbrev pub is_final : Status → Bool
is_final s = is_refunded (some s) || is_review (some s)

pub set_state-settled :
    (token : ℕ) (s : Status) (id : Option ℕ) (row : Row)
    → is_final s ≡ true
    → is_settled row ≡ true
    → is_settled (set_state token s id row) ≡ true
unfolding set_state
set_state-settled token s id none f h = h
set_state-settled token s id (some r) f h = ground arith

pub claim_return-settled :
    (now token : ℕ) (t : Option ℕ) (row : Row)
    → decide_return_claim now row ≡ reconcile t
    → is_settled (claim_return now token row) ≡ true
unfolding claim_return decide_return_claim
claim_return-settled now token t none h = cc
claim_return-settled now token t (some r) h = ground arith

pub mark_sending-settled :
    (now token a : ℕ) (row : Row)
    → is_mine token row ≡ true
    → is_settled (mark_sending now token a row) ≡ true
unfolding mark_sending
mark_sending-settled now token a none h = cc
mark_sending-settled now token a (some r) h = ground arith

pub settled-other : (token : ℕ) (row : Row) → is_settled row ≡ true → is_mine token row ≡ false
settled-other token none h = refl
settled-other token (some r) h = ground arith

carry_out-settled :
    (now token : ℕ) (reply : RefundReply) (plan : Plan) (row : Row)
    → is_settled row ≡ true
    → is_settled (carry_out now token reply plan row).row ≡ true
unfolding carry_out link_refund
carry_out-settled now token reply duplicate row h =
    set_state-settled token needs_review none row refl h
carry_out-settled now token reply unverified row h =
    set_state-settled token needs_review none row refl h
carry_out-settled now token reply no_payment row h =
    set_state-settled token needs_review none row refl h
carry_out-settled now token reply insufficient row h =
    set_state-settled token needs_review none row refl h
carry_out-settled now token reply outcome_unknown row h =
    set_state-settled token needs_review none row refl h
carry_out-settled now token reply wait row h =
    release-settled token (drop_claim token row) (drop_claim-settled token row h)
carry_out-settled now token reply (refuse e) row h = release-settled token row h
carry_out-settled now token reply (link refund true) row h =
    set_state-settled token financial_refunded (some refund.id)
      (keep_amount token refund.total_refunded row) refl
      (keep_amount-settled token refund.total_refunded row h)
carry_out-settled now token reply (link refund false) row h =
    set_state-settled token needs_review (some refund.id)
      (keep_amount token refund.total_refunded row) refl
      (keep_amount-settled token refund.total_refunded row h)
carry_out-settled now token reply (send amount lines parts) row h = rw (settled-other token row h) h

-- Whether the reply is a definite rejection.
abbrev pub is_rejected : RefundReply → Bool
is_rejected (rejected e) = true
is_rejected _ = false

carry_out-settles :
    (now token : ℕ) (reply : RefundReply) (plan : Plan) (row : Row) (q : Request)
    → (carry_out now token reply plan row).sent ≡ some q
    → is_rejected reply ≡ false
    → is_settled (carry_out now token reply plan row).row ≡ true
unfolding carry_out after_reply
carry_out-settles now token reply duplicate row q h k = cc
carry_out-settles now token reply unverified row q h k = cc
carry_out-settles now token reply no_payment row q h k = cc
carry_out-settles now token reply insufficient row q h k = cc
carry_out-settles now token reply wait row q h k = cc
carry_out-settles now token reply outcome_unknown row q h k = cc
carry_out-settles now token reply (link refund matches) row q h k = cc
carry_out-settles now token reply (refuse e) row q h k = cc
carry_out-settles now token (rejected e) (send amount lines parts) row q h k = cc
carry_out-settles now token (accepted id) (send amount lines parts) row q h k =
    let mine = (carry_out-sent now token (accepted id) (send amount lines parts) row q h).1 in
    rw mine (
      set_state-settled token financial_refunded (some id) (mark_sending now token amount row) refl
        (mark_sending-settled now token amount row mine))
carry_out-settles now token unknown (send amount lines parts) row q h k =
    let mine = (carry_out-sent now token unknown (send amount lines parts) row q h).1 in
    rw mine (
      release-settled token _
        (drop_claim-settled token _ (mark_sending-settled now token amount row mine)))

process_claimed_return-settled :
    (now token : ℕ) (r : Returned) (ev : Result Evidence) (c : Claim) (reply : RefundReply)
    (row : Row)
    → is_settled row ≡ true
    → is_settled (process_claimed_return now token r ev c reply row).row ≡ true
unfolding process_claimed_return
process_claimed_return-settled now token r (err e) c reply row h = release-settled token row h
process_claimed_return-settled now token r (ok ev) c reply row h =
    carry_out-settled now token reply (plan_return now r ev c) row h

run_claim-settled :
    (now token : ℕ) (r : Returned) (ev : Result Evidence) (reply : RefundReply) (row : Row)
    (c : Claim)
    → is_settled row ≡ true
    → decide_return_claim now row ≡ c
    → is_settled (run_claim now token r ev reply row c).row ≡ true
unfolding run_claim
run_claim-settled now token r ev reply row (done id) h k = h
run_claim-settled now token r ev reply row review h k = h
run_claim-settled now token r ev reply row busy h k = h
run_claim-settled now token r ev reply row claimed h k = absurd (settled-unclaimed now row h k)
run_claim-settled now token r ev reply row (reconcile t) h k =
    process_claimed_return-settled now token r ev (reconcile t) reply _
      (claim_return-settled now token t row k)

process_claimed_return-settles :
    (now token : ℕ) (r : Returned) (ev : Result Evidence) (c : Claim) (reply : RefundReply)
    (row : Row) (q : Request)
    → (process_claimed_return now token r ev c reply row).sent ≡ some q
    → is_rejected reply ≡ false
    → is_settled (process_claimed_return now token r ev c reply row).row ≡ true
unfolding process_claimed_return
process_claimed_return-settles now token r (err e) c reply row q h k = cc
process_claimed_return-settles now token r (ok ev) c reply row q h k =
    carry_out-settles now token reply (plan_return now r ev c) row q h k

run_claim-settles :
    (now token : ℕ) (r : Returned) (ev : Result Evidence) (reply : RefundReply) (row : Row)
    (c : Claim) (q : Request)
    → (run_claim now token r ev reply row c).sent ≡ some q
    → is_rejected reply ≡ false
    → is_settled (run_claim now token r ev reply row c).row ≡ true
unfolding run_claim
run_claim-settles now token r ev reply row (done id) q h k = cc
run_claim-settles now token r ev reply row review q h k = cc
run_claim-settles now token r ev reply row busy q h k = cc
run_claim-settles now token r ev reply row claimed q h k =
    process_claimed_return-settles now token r ev claimed reply _ q h k
run_claim-settles now token r ev reply row (reconcile t) q h k =
    process_claimed_return-settles now token r ev (reconcile t) reply _ q h k

-- A row of a return that is sending, refunded or under review stays one of these in every job, and
-- no job on it sends a refund.
pub settled_stays :
    (now token : ℕ) (r : Returned) (source : Source) (ev : Result Evidence) (reply : RefundReply)
    (row : Row)
    → is_settled row ≡ true
    → (is_settled (sync_kiot_viet_return now token r source ev reply row).row ≡ true)
      × ((q : Request) → (sync_kiot_viet_return now token r source ev reply row).sent ≢ some q)
settled_stays now token r source ev reply row h = (
  sync_kiot_viet_return-cases (λ out. is_settled out.row ≡ true) now token r source ev reply row
      (λ result. h) (run_claim-settled now token r ev reply row _ h refl),
  λ q sent.
      settled-unclaimed now row h
        (sync_kiot_viet_return_sent now token r source ev reply row q sent).3,
)

-- A job that sends a refund and gets no definite rejection leaves a settled row.
pub sent_once :
    (now token : ℕ) (r : Returned) (source : Source) (ev : Result Evidence) (reply : RefundReply)
    (row : Row) (q : Request)
    → (sync_kiot_viet_return now token r source ev reply row).sent ≡ some q
    → is_rejected reply ≡ false
    → is_settled (sync_kiot_viet_return now token r source ev reply row).row ≡ true
sent_once now token r source ev reply row q sent unrefused =
    sync_kiot_viet_return-cases (λ out. out.sent ≡ some q → is_settled out.row ≡ true) now token r
      source ev reply row (λ result h. cc)
      (λ h. run_claim-settles now token r ev reply row _ q h unrefused) sent
