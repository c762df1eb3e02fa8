-- ===== src/OrderSync/Decision.antt =====
-- The claim transaction of runShopifyOrderSync: what one job may do with the order now.
use store_kiotviet.Base.{
  ℕ, ◌+◌, Bool, false, ◌&&◌, not, Option, none, some, List, Result, ok, err, AppError,
  if◌then◌else◌, ltb, is_empty, or_else,
}
use store_kiotviet.Shopify.{Order, OrderSettings, LineItem}
use store_kiotviet.ProductOnly.{is_not_false}
use store_kiotviet.ProductOnly.Refunds.{RefundAdjustments}
use store_kiotviet.Prepare.{PreparedOrder, prepare_order_for_kiot_viet, is_paid}

pub data Status : Type 0 where
  pending_create creating create_failed created cancelled completed : Status

pub data SyncStatus : Type 0 where
  pending synced failed manual_review uncertain : SyncStatus

pub data Stage : Type 0 where
  resolve_input create_kiot_viet_order validate_line_items refund_adjustments : Stage
  verify_existing_order : Stage

-- `failure_stage` with the stages before the request is sent taken as one, `resolve_input`.
pub record Mapping : Type 0 where
  pub kiot_viet_order_id : Option ℕ
  pub status : Option Status
  pub sync_status : SyncStatus
  pub claim_token : Option ℕ
  pub created_at : ℕ
  pub claimed_at : Option ℕ
  pub failure_stage : Option Stage

abbrev pub Row : Type 0
Row = Option Mapping

pub data SkipReason : Type 0 where
  auto_create_disabled awaiting_payment shopify_order_cancelled : SkipReason
  all_items_cancelled fee_only_order : SkipReason

pub data Decision : Type 0 where
  update : ℕ → Decision
  verify busy : Decision
  skip : SkipReason → Decision
  invalid : Stage → AppError → Decision
  create : PreparedOrder → Decision

-- ORDER_CLAIM_LEASE_MS and ORDER_RECOVERY_WINDOW_MS
abbrev pub order_claim_lease_ms : ℕ
order_claim_lease_ms = 900000

abbrev pub order_recovery_window_ms : ℕ
order_recovery_window_ms = 300000

-- `now - then < window`, on times that may lie in the future.
abbrev pub within : (window then_ now : ℕ) → Bool
within window then_ now = ltb now (then_ + window)

abbrev pub claim_time : Mapping → ℕ
claim_time m = or_else m.claimed_at m.created_at

abbrev is_ambiguous : Option RefundAdjustments → Bool
is_ambiguous none = false
is_ambiguous (some a) = not (is_empty a.ambiguous)

abbrev has_lines : Option (List LineItem) → Bool
has_lines none = false
has_lines (some ls) = not (is_empty ls)

unfoldable pub decide_prepared : Result PreparedOrder → Decision
decide_prepared (err e) = invalid validate_line_items e
decide_prepared (ok p) =
    if is_ambiguous p.adjustments
    then invalid refund_adjustments AppError.conflict
    else if is_empty p.lines
    then skip (if has_lines p.original_lines then all_items_cancelled else fee_only_order)
    else create p

-- The order may be created: no row claims it.
unfoldable pub decide_unclaimed : Order → OrderSettings → Decision
unfolding decide_prepared
decide_unclaimed order s =
    if not (is_not_false s.auto_create)
    then skip auto_create_disabled
    else if is_not_false s.paid_only && not (is_paid order s)
    then skip awaiting_payment
    else if order.cancelled
    then skip shopify_order_cancelled
    else decide_prepared (prepare_order_for_kiot_viet order s)

unfoldable pub decide_status : ℕ → Order → OrderSettings → Mapping → Option Status → Decision
unfolding decide_unclaimed
decide_status now order s m (some creating) = verify
decide_status now order s m (some pending_create) =
    if within order_claim_lease_ms (claim_time m) now then busy else decide_unclaimed order s
decide_status now order s m _ = decide_unclaimed order s

unfoldable pub decide_mapping : ℕ → Order → OrderSettings → Mapping → Option ℕ → Decision
unfolding decide_status
decide_mapping now order s m (some id) = update id
decide_mapping now order s m none = decide_status now order s m m.status

unfoldable pub decide_claim : ℕ → Order → OrderSettings → Row → Decision
unfolding decide_unclaimed decide_mapping
decide_claim now order s none = decide_unclaimed order s
decide_claim now order s (some m) = decide_mapping now order s m m.kiot_viet_order_id
