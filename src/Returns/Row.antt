-- ===== src/Returns/Row.antt =====
-- The row of refund_mappings of one return: the claim transaction and the statements of
-- lib/sync/return-sync.ts, each atomic with its WHERE clause.
use store_kiotviet.Base.{
  ℕ, ◌+◌, ◌*◌, ◌-◌, ◌<◌, ◌≡◌, arith, not, Bool, true, false, ◌&&◌, ◌||◌, Option, none, some,
  if◌then◌else◌, ltb, ◌==◌, is_some,
}
use store_kiotviet.Base.Int.{ℤ, pos}

pub data Status : Type 0 where
  processing sending financial_refunded needs_review failed : Status

pub record RefundRow : Type 0 where
  pub status : Option Status
  pub claim_token : Option ℕ
  pub claimed_at : Option ℕ
  pub sent_at : Option ℕ
  pub financial_refund_id : Option ℕ
  -- hundredths of a cent
  pub amount : Option ℤ
  pub attempt_count : ℕ

abbrev pub Row : Type 0
Row = Option RefundRow

abbrev pub return_claim_lease_ms : ℕ
return_claim_lease_ms = 900000

abbrev pub return_send_verify_ms : ℕ
return_send_verify_ms = 600000

abbrev pub is_processing : Option Status → Bool
is_processing (some processing) = true
is_processing _ = false

abbrev pub is_sending : Option Status → Bool
is_sending (some sending) = true
is_sending _ = false

abbrev pub is_refunded : Option Status → Bool
is_refunded (some financial_refunded) = true
is_refunded _ = false

abbrev pub is_review : Option Status → Bool
is_review (some needs_review) = true
is_review _ = false

abbrev is_recent : ℕ → Option ℕ → Bool
is_recent now none = false
is_recent now (some t) = ltb (now - t) return_claim_lease_ms

pub data Claim : Type 0 where
  done : Option ℕ → Claim
  review busy : Claim
  claimed : Claim
  reconcile : (sent_at : Option ℕ) → Claim

-- The decision of the claim transaction on the row that it locked.
unfoldable pub decide_return_claim : ℕ → Row → Claim
decide_return_claim now none = claimed
decide_return_claim now (some r) =
    if is_some r.financial_refund_id || is_refunded r.status
    then done r.financial_refund_id
    else if is_review r.status
    then review
    else if (is_processing r.status || is_sending r.status && is_some r.claim_token)
        && is_recent now r.claimed_at
    then busy
    else if is_sending r.status
    then reconcile r.sent_at
    else claimed

-- `INSERT … ON CONFLICT … DO UPDATE`, after a decision to go on.
unfoldable pub claim_return : (now token : ℕ) → Row → Row
claim_return now token none = some (record {
  status = some processing;
  claim_token = some token;
  claimed_at = some now;
  sent_at = none;
  financial_refund_id = none;
  amount = none;
  attempt_count = 1;
})
claim_return now token (some r) = some (record r {
  status = some (if is_sending r.status then sending else processing);
  claim_token = some token;
  claimed_at = some now;
  attempt_count = r.attempt_count + 1;
})

abbrev pub holds : ℕ → Option ℕ → Bool
holds token none = false
holds token (some t) = t == token

-- `UPDATE … SET change WHERE claim_token = token AND test`
abbrev pub update_claimed : ℕ → (RefundRow → Bool) → (RefundRow → RefundRow) → Row → Row
update_claimed token test change none = none
update_claimed token test change (some r) =
    some (if holds token r.claim_token && test r then change r else r)

abbrev pub always : RefundRow → Bool
always r = true

abbrev coalesce {ℓ} : {A : Type ℓ} → Option A → Option A → Option A
coalesce none old = old
coalesce (some new) old = some new

-- setState
unfoldable pub set_state : ℕ → Status → (refund_id : Option ℕ) → Row → Row
set_state token status refund_id = update_claimed token always (λ r. record r {
  status = some status;
  claim_token = none;
  financial_refund_id = coalesce refund_id r.financial_refund_id;
})

-- The claim is given up and the status kept.
unfoldable pub drop_claim : ℕ → Row → Row
drop_claim token = update_claimed token always (λ r. record r { claim_token = none })

-- The release after an exception: nothing was sent from 'processing'.
unfoldable pub release : ℕ → Row → Row
release token = update_claimed token always (λ r. record r {
  status = if is_processing r.status then some failed else r.status;
  claim_token = none;
})

unfoldable pub keep_amount : ℕ → Option ℤ → Row → Row
keep_amount token amount =
    update_claimed token always (λ r. record r { amount = coalesce r.amount amount })

abbrev pub is_mine : ℕ → Row → Bool
is_mine token none = false
is_mine token (some r) = holds token r.claim_token && is_processing r.status

-- The exact request is on record before Shopify is called.
unfoldable pub mark_sending : (now token amount : ℕ) → Row → Row
mark_sending now token amount =
    update_claimed token (λ r. is_processing r.status)
      (λ r. record r {
        status = some sending;
        amount = some (pos (amount * 100));
        sent_at = some now;
      })

abbrev is_stale : ℕ → Option ℕ → Bool
is_stale now none = false
is_stale now (some t) = ltb (t + return_claim_lease_ms) now

abbrev pub two_minutes_ms : ℕ
two_minutes_ms = 120000

-- What the scheduler queues again; `updated_at` is that of the row.
unfoldable pub is_stuck : (now updated_at : ℕ) → RefundRow → Bool
is_stuck now updated_at r =
    not (is_some r.financial_refund_id)
    && ltb r.attempt_count 10
    && (is_processing r.status && is_stale now r.claimed_at
        || is_sending r.status
          && not (is_some r.claim_token)
          && ltb (updated_at + two_minutes_ms) now
        || is_sending r.status && is_some r.claim_token && is_stale now r.claimed_at)

-- Whether a job may take the return on.
abbrev pub is_open_claim : Claim → Bool
is_open_claim claimed = true
is_open_claim (reconcile sent_at) = true
is_open_claim _ = false

-- A return without a refund whose job stopped while it was processing or sending, with fewer than
-- ten attempts: once the lease and two minutes are over, it is stuck and may be claimed.
pub stuck_row :
    (now updated_at claimed_at : ℕ) (r : RefundRow)
    → r.claimed_at ≡ some claimed_at
    → r.financial_refund_id ≡ none
    → r.attempt_count < 10
    → (is_processing r.status || is_sending r.status) ≡ true
    → claimed_at + return_claim_lease_ms < now
    → updated_at + two_minutes_ms < now
    → (is_stuck now updated_at r ≡ true) × (is_open_claim (decide_return_claim now (some r)) ≡ true)
unfolding is_stuck decide_return_claim
stuck_row now updated_at t r e f few s old idle = rw (e, f) (ground arith, ground arith)
