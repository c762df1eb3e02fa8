-- ===== src/OrderSync/Run/Uncertain.antt =====
-- What later jobs do about an order that may or may not have been created.
use store_kiotviet.Base.{
  ℕ, ◌≡◌, refl, Bool, true, false, Option, none, some, List, [], ◌∷◌, arith, All, All-imp, ok, err,
  AppError,
}
use store_kiotviet.Shopify.{Order, OrderSettings}
use store_kiotviet.OrderSync.Decision.{
  Row, Mapping, Decision, update, verify, decide_claim, decide_mapping, decide_status,
}
use store_kiotviet.OrderSync.Outcomes.{
  claimed_by, is_definite_rejection, create_mapped_order, verify_uncertain_order, mark_creating,
  record_uncertain, record_recovered, record_unknown_outcome,
}
use store_kiotviet.OrderSync.Settling.{Unlinked}
use store_kiotviet.OrderSync.Run.{Replies, act, verify_row, run_shopify_order_sync}
use store_kiotviet.OrderSync.Run.Links.{order_id, run_linked, is_uncertain}

-- A whole job, one after the other.
pub record Job : Type 0 where
  pub now : ℕ
  pub token : ℕ
  pub order : Order
  pub settings : OrderSettings
  pub replies : Replies

-- What each of the jobs decides, on the row that the one before it leaves.
abbrev pub decisions : List Job → Row → List Decision
decisions [] row = []
decisions (j ∷ jobs) row =
    decide_claim j.now j.order j.settings row
    ∷ decisions jobs (run_shopify_order_sync j.now j.token j.order j.settings j.replies row).1

-- The job searches for the order or updates the one that is known.
abbrev pub is_search_or_update : Decision → Bool
is_search_or_update verify = true
is_search_or_update (update id) = true
is_search_or_update _ = false

decide_claim-linked :
    (now id : ℕ) (order : Order) (s : OrderSettings) (row : Row)
    → order_id row ≡ some id
    → decide_claim now order s row ≡ update id
unfolding decide_claim decide_mapping
decide_claim-linked now id order s none h = cc
decide_claim-linked now id order s (some m) h = ground arith

run_keeps :
    (now token id : ℕ) (order : Order) (s : OrderSettings) (r : Replies) (row : Row)
    → order_id row ≡ some id
    → order_id (run_shopify_order_sync now token order s r row).1 ≡ some id
run_keeps now token id order s r none h = cc
run_keeps now token id order s r (some m) h = run_linked now token id order s r m h

linked_is_updated :
    (id : ℕ) (jobs : List Job) (row : Row)
    → order_id row ≡ some id
    → All (λ d. d ≡ update id) (decisions jobs row)
linked_is_updated id [] row h = tt
linked_is_updated id (j ∷ jobs) row h = (
  decide_claim-linked j.now id j.order j.settings row h,
  linked_is_updated id jobs _ (run_keeps j.now j.token id j.order j.settings j.replies row h),
)

decide_claim-uncertain :
    (now : ℕ) (order : Order) (s : OrderSettings) (row : Row)
    → is_uncertain row ≡ true
    → decide_claim now order s row ≡ verify
unfolding decide_claim decide_mapping decide_status
decide_claim-uncertain now order s none h = cc
decide_claim-uncertain now order s (some m) h = ground arith

verify_row-uncertain :
    (now : ℕ) (row : Row)
    → is_uncertain row ≡ true
    → is_uncertain (verify_row now none row).1 ≡ true
unfolding verify_row verify_uncertain_order record_unknown_outcome
verify_row-uncertain now none h = cc
verify_row-uncertain now (some m) h = ground arith

verify_row-found :
    (now id : ℕ) (row : Row)
    → is_uncertain row ≡ true
    → order_id (verify_row now (some id) row).1 ≡ some id
unfolding verify_row verify_uncertain_order record_recovered
verify_row-found now id none h = cc
verify_row-found now id (some m) h = ground arith

run_verifies :
    (j : Job) (row : Row)
    → is_uncertain row ≡ true
    → run_shopify_order_sync j.now j.token j.order j.settings j.replies row
      ≡ verify_row j.now j.replies.found row
unfolding run_shopify_order_sync act
run_verifies j row h = rw (decide_claim-uncertain j.now j.order j.settings row h) refl

searched_again :
    (now : ℕ) (jobs : List Job) (row : Row) (found : Option ℕ)
    → ((r : Row)
        → is_uncertain r ≡ true
        → All (λ d. is_search_or_update d ≡ true) (decisions jobs r))
    → is_uncertain row ≡ true
    → All (λ d. is_search_or_update d ≡ true) (decisions jobs (verify_row now found row).1)
searched_again now jobs row none later h = later _ (verify_row-uncertain now row h)
searched_again now jobs row (some id) later h =
    All-imp (λ d e. rw e refl) _ (linked_is_updated id jobs _ (verify_row-found now id row h))

uncertain_is_searched :
    (jobs : List Job) (row : Row)
    → is_uncertain row ≡ true
    → All (λ d. is_search_or_update d ≡ true) (decisions jobs row)
uncertain_is_searched [] row h = tt
uncertain_is_searched (j ∷ jobs) row h = (
  rw (decide_claim-uncertain j.now j.order j.settings row h) refl,
  rw (run_verifies j row h)
      (searched_again j.now jobs row j.replies.found (uncertain_is_searched jobs) h),
)

sent-uncertain :
    (now token : ℕ) (e : AppError) (m : Mapping)
    → Unlinked m
    → claimed_by token m ≡ true
    → is_definite_rejection e ≡ false
    → let (r, row) = create_mapped_order now token (ok tt) (err e) (some m) in
      (r ≡ err e) × (is_uncertain row ≡ true)
unfolding create_mapped_order mark_creating record_uncertain
sent-uncertain now token e m u h k = ground arith

-- An error reply that is no definite rejection, to the job that holds the claim of an unlinked
-- order: the job returns the error, and in any sequence of whole jobs after it, whatever their
-- replies, each searches for the order or updates the one that was found, and none creates it.
pub create_mapped_order_uncertain :
    (now token : ℕ) (e : AppError) (m : Mapping) (jobs : List Job)
    → Unlinked m
    → claimed_by token m ≡ true
    → is_definite_rejection e ≡ false
    → let (r, row) = create_mapped_order now token (ok tt) (err e) (some m) in
      (r ≡ err e) × All (λ d. is_search_or_update d ≡ true) (decisions jobs row)
create_mapped_order_uncertain now token e m jobs u h k =
    let (r, unknown) = sent-uncertain now token e m u h k in
    (r, uncertain_is_searched jobs _ unknown)

-- For an unlinked order whose creation is uncertain: if the search finds an order, every job of any
-- sequence of whole jobs after it updates that order; if not, each of them searches again or
-- updates the order that a search between them found.
pub verify_uncertain_order_settles :
    (now id : ℕ) (m : Mapping) (jobs : List Job)
    → is_uncertain (some m) ≡ true
    → All (λ d. d ≡ update id) (decisions jobs (verify_uncertain_order now (some id) m).1)
      × All
          (λ d. is_search_or_update d ≡ true)
          (decisions jobs (verify_uncertain_order now none m).1)
unfolding verify_row
verify_uncertain_order_settles now id m jobs h = (
  linked_is_updated id jobs _ (verify_row-found now id (some m) h),
  uncertain_is_searched jobs _ (verify_row-uncertain now (some m) h),
)
