-- ===== src/OrderSync/Settling.antt =====
-- What the next job finds after each way a create job can end.
use store_kiotviet.Base.{ℕ, ◌≡◌, true, false, none, some, arith, Result, ok, err, AppError}
use store_kiotviet.Shopify.{Order, OrderSettings}
use store_kiotviet.OrderSync.Decision.{
  Mapping, update, decide_claim, decide_mapping, decide_status, decide_unclaimed,
}
use store_kiotviet.OrderSync.Outcomes.{
  claimed_by, is_definite_rejection, create_mapped_order, created_as,
}

-- A row without an order that is claimed by this job.
abbrev pub Unlinked : Mapping → Type 0
Unlinked m = m.kiot_viet_order_id ≡ none

-- A reply with an id to the job that holds the claim: the job returns that id, and the next job
-- updates that order.
pub create_mapped_order_created :
    (now later token id : ℕ) (order : Order) (s : OrderSettings) (m : Mapping)
    → claimed_by token m ≡ true
    → let (r, row) = create_mapped_order now token (ok tt) (ok id) (some m) in
      (r ≡ ok (created_as id)) × (decide_claim later order s row ≡ update id)
unfolding create_mapped_order decide_claim decide_mapping
create_mapped_order_created now later token id order s m h = ground arith

-- A definite rejection, to the job that holds the claim of an unlinked order: the job returns the
-- error, and the next job decides as if no job had claimed the order.
pub create_mapped_order_rejected :
    (now later token : ℕ) (e : AppError) (order : Order) (s : OrderSettings) (m : Mapping)
    → Unlinked m
    → claimed_by token m ≡ true
    → is_definite_rejection e ≡ true
    → let (r, row) = create_mapped_order now token (ok tt) (err e) (some m) in
      (r ≡ err e) × (decide_claim later order s row ≡ decide_unclaimed order s)
unfolding create_mapped_order decide_claim decide_mapping decide_status
create_mapped_order_rejected now later token e order s m u h k = ground arith

-- A job whose claim was taken over before the request: whatever the reply would be, it returns a
-- retryable error and the row stays as it is.
pub create_mapped_order_superseded :
    (now token : ℕ) (reply : Result ℕ) (m : Mapping)
    → claimed_by token m ≡ false
    → create_mapped_order now token (ok tt) reply (some m) ≡ (err AppError.retryable, some m)
unfolding create_mapped_order
create_mapped_order_superseded now token reply m h = ground arith
