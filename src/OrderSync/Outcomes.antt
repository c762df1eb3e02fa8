-- ===== src/OrderSync/Outcomes.antt =====
-- The SQL statements that move the row of order_mappings, each atomic with its WHERE clause, and
-- the jobs of lib/sync/order-sync.ts that run them one after another.
use store_kiotviet.Base.{
  ℕ, Bool, true, false, ◌&&◌, not, Option, none, some, Result, ok, err, AppError, if◌then◌else◌,
  ◌==◌, is_some, is_manual_review_error,
}
use store_kiotviet.OrderSync.Decision.{
  Status, pending_create, creating, create_failed, created, cancelled, completed, SyncStatus,
  SkipReason, pending, synced, failed, manual_review, uncertain, Stage, resolve_input,
  create_kiot_viet_order, verify_existing_order, Mapping, Row, claim_time, within,
  order_recovery_window_ms,
}

-- isDefiniteRejection: KiotViet answered and refused, so nothing was created.
unfoldable pub is_definite_rejection : AppError → Bool
is_definite_rejection AppError.api = true
is_definite_rejection AppError.authentication = true
is_definite_rejection AppError.rate_limit = true
is_definite_rejection AppError.validation = true
is_definite_rejection _ = false

abbrev pub is_pending_create : Option Status → Bool
is_pending_create (some pending_create) = true
is_pending_create _ = false

abbrev pub is_creating : Option Status → Bool
is_creating (some creating) = true
is_creating _ = false

abbrev pub is_cancelled : Option Status → Bool
is_cancelled (some cancelled) = true
is_cancelled _ = false

abbrev pub holds : ℕ → Option ℕ → Bool
holds token none = false
holds token (some t) = t == token

-- `UPDATE … SET change WHERE test`, on the row of this order.
abbrev pub update_where : (Mapping → Bool) → (Mapping → Mapping) → Row → Row
update_where test change none = none
update_where test change (some m) = some (if test m then change m else m)

-- Whether that statement returns the row.
abbrev pub matches : (Mapping → Bool) → Row → Bool
matches test none = false
matches test (some m) = test m

abbrev pub claimed_by : ℕ → Mapping → Bool
claimed_by token m = is_pending_create m.status && holds token m.claim_token

abbrev pub sending_by : ℕ → Mapping → Bool
sending_by token m = is_creating m.status && holds token m.claim_token

unfoldable pub claim_row : (now token : ℕ) → Row → Row
claim_row now token none = some (record {
  kiot_viet_order_id = none;
  status = some pending_create;
  sync_status = pending;
  claim_token = some token;
  created_at = now;
  claimed_at = some now;
  failure_stage = none;
})
claim_row now token (some m) = some (record m {
  status = some pending_create;
  sync_status = pending;
  claim_token = some token;
  claimed_at = some now;
  failure_stage = none;
})

abbrev pub failed_as : AppError → SyncStatus
failed_as e = if is_manual_review_error e then manual_review else failed

-- The failures before the request is sent: the order can be claimed again.
unfoldable pub release_claim : ℕ → AppError → Row → Row
release_claim token e = update_where (claimed_by token) (λ m. record m {
  status = some create_failed;
  sync_status = failed_as e;
  claim_token = none;
  failure_stage = some resolve_input;
})

unfoldable pub mark_creating : (now token : ℕ) → Row → Row
mark_creating now token =
    update_where (claimed_by token)
      (λ m. record m { status = some creating; claimed_at = some now })

unfoldable pub record_rejected : ℕ → Row → Row
record_rejected token = update_where (sending_by token) (λ m. record m {
  status = some create_failed;
  sync_status = failed;
  claim_token = none;
  failure_stage = some create_kiot_viet_order;
})

unfoldable pub record_uncertain : ℕ → Row → Row
record_uncertain token =
    update_where (sending_by token)
      (λ m. record m { sync_status = uncertain; failure_stage = some create_kiot_viet_order })

abbrev linked : ℕ → Mapping → Mapping
linked id m = record m {
  kiot_viet_order_id = some id;
  status = some created;
  sync_status = synced;
  claim_token = none;
  failure_stage = none;
}

unfoldable pub record_created : (token id : ℕ) → Row → Row
record_created token id = update_where (sending_by token) (linked id)

-- verifyUncertainOrder found an order that names this one.
unfoldable pub record_recovered : ℕ → Row → Row
record_recovered id =
    update_where (λ m. is_creating m.status && not (is_some m.kiot_viet_order_id)) (linked id)

unfoldable pub record_unknown_outcome : Row → Row
record_unknown_outcome =
    update_where (λ m. is_creating m.status)
      (λ m. record m { sync_status = manual_review; failure_stage = some verify_existing_order })

-- recordUnclaimedFailure: inserts, or updates a row that no job holds.
unfoldable pub record_unclaimed_failure : ℕ → Stage → AppError → Row → Row
record_unclaimed_failure now stage e none = some (record {
  kiot_viet_order_id = none;
  status = some create_failed;
  sync_status = failed_as e;
  claim_token = none;
  created_at = now;
  claimed_at = none;
  failure_stage = some stage;
})
record_unclaimed_failure now stage e (some m) =
    update_where
      (λ n.
        not (is_some n.kiot_viet_order_id)
        && not (is_creating n.status)
        && not (is_pending_create n.status))
      (λ n. record n {
        status = some create_failed;
        sync_status = failed_as e;
        failure_stage = some stage;
      })
      (some m)

-- `status=COALESCE(status,'created')` of updateMappedOrder.
abbrev or_created : Option Status → Option Status
or_created none = some created
or_created (some st) = some st

unfoldable pub record_updated : Row → Row
record_updated =
    update_where (λ m. true) (λ m. record m { status = or_created m.status; sync_status = synced })

unfoldable pub record_cancelled : Row → Row
record_cancelled =
    update_where (λ m. true) (λ m. record m { status = some cancelled; sync_status = synced })

-- syncKiotVietOrderStatus: completed, unless it was cancelled.
unfoldable pub record_completed : Row → Row
record_completed =
    update_where (λ m. not (is_cancelled m.status))
      (λ m. record m { status = some completed; sync_status = synced })

pub data OrderSyncResult : Type 0 where
  created_as recovered_as updated_as : ℕ → OrderSyncResult
  skipped : SkipReason → OrderSyncResult

-- What came back from POST /orders: the id of the new order, or an error.
abbrev pub Reply : Type 0
Reply = Result ℕ

abbrev after_reply : ℕ → Reply → Row → Result OrderSyncResult × Row
after_reply token (ok id) row =
    if matches (sending_by token) row
    then (ok (created_as id), record_created token id row)
    else (err AppError.conflict, row)
after_reply token (err e) row = (
  err e,
  if is_definite_rejection e then record_rejected token row else record_uncertain token row,
)

-- createMappedOrder when no other job moves the row in between. `input` is how resolving the
-- branch, the seller, the customer and the products ended, and `reply` KiotViet's answer.
unfoldable pub create_mapped_order :
    (now token : ℕ) (input : Result (Unit {0})) (reply : Reply) → Row → Result OrderSyncResult × Row
unfolding release_claim mark_creating record_created record_rejected record_uncertain
create_mapped_order now token (err e) reply row = (err e, release_claim token e row)
create_mapped_order now token (ok _) reply row =
    if matches (claimed_by token) row
    then after_reply token reply (mark_creating now token row)
    else (err AppError.retryable, row)

-- verifyUncertainOrder: `found` is the KiotViet order that names this one, if the search finds it.
unfoldable pub verify_uncertain_order : ℕ → Option ℕ → Mapping → Result OrderSyncResult × Row
unfolding record_recovered record_unknown_outcome
verify_uncertain_order now (some id) m = (ok (recovered_as id), record_recovered id (some m))
verify_uncertain_order now none m =
    if within order_recovery_window_ms (claim_time m) now
    then (err AppError.retryable, some m)
    else (err AppError.conflict, record_unknown_outcome (some m))

-- cancelShopifyOrder; `cancelled_remotely` is how cancelling the KiotViet order ended.
unfoldable pub cancel_shopify_order : Result (Unit {0}) → Row → Result (Unit {0}) × Row
unfolding record_cancelled
cancel_shopify_order cancelled_remotely none = (err AppError.mapping, none)
cancel_shopify_order cancelled_remotely (some m) =
    if not (is_some m.kiot_viet_order_id)
    then (
      err (
          if is_pending_create m.status
          then AppError.retryable
          else if is_creating m.status
          then AppError.retryable
          else AppError.mapping),
      some m,
    )
    else if is_cancelled m.status
    then (ok tt, record_cancelled (some m))
    else elim cancelled_remotely [
      | ok _ ↦ (ok tt, record_cancelled (some m))
      | err e ↦ (err e, some m)
    ]
