-- ===== src/OrderSync/Run/Links.antt =====
-- The order id that a job returns and the one that it leaves on the row.
use store_kiotviet.Base.{
  Bool, ◌&&◌, not, is_some, ◌==◌, ℕ, ◌≡◌, true, false, Option, none, some, Result, ok, err, arith,
}
use store_kiotviet.Shopify.{Order, OrderSettings}
use store_kiotviet.OrderSync.Decision.{
  Row, Mapping, Decision, update, verify, busy, skip, invalid, create, decide_claim, decide_mapping,
  decide_status, decide_unclaimed, decide_prepared,
}
use store_kiotviet.OrderSync.Outcomes.{
  OrderSyncResult, created_as, recovered_as, updated_as, skipped, create_mapped_order,
  verify_uncertain_order, record_updated, record_created, mark_creating, record_recovered,
  is_creating,
}
use store_kiotviet.OrderSync.Run.{
  Replies, act, update_mapped_order, verify_row, run_shopify_order_sync,
}

abbrev pub order_id : Row → Option ℕ
order_id none = none
order_id (some m) = m.kiot_viet_order_id

abbrev pub returned_id : Result OrderSyncResult → Option ℕ
returned_id (err e) = none
returned_id (ok (created_as id)) = some id
returned_id (ok (recovered_as id)) = some id
returned_id (ok (updated_as id)) = some id
returned_id (ok (skipped reason)) = none

-- A whole job on a linked row leaves its KiotViet order id as it is, whatever the settings, the
-- order and the replies.
pub run_linked :
    (now token id : ℕ) (order : Order) (s : OrderSettings) (r : Replies) (m : Mapping)
    → m.kiot_viet_order_id ≡ some id
    → order_id (run_shopify_order_sync now token order s r (some m)).1 ≡ some id
unfolding run_shopify_order_sync act decide_claim decide_mapping update_mapped_order record_updated
run_linked now token id order s r m h = ground arith

-- A decision that fits the row: the order to update is its own, and one that is searched for is
-- being created.
abbrev has_order : ℕ → Option ℕ → Bool
has_order id none = false
has_order id (some k) = k == id

abbrev pub is_uncertain : Row → Bool
is_uncertain none = false
is_uncertain (some m) = is_creating m.status && not (is_some m.kiot_viet_order_id)

abbrev fits : Row → Decision → Bool
fits row (update id) = has_order id (order_id row)
fits row verify = is_uncertain row
fits row _ = true

decide_unclaimed-fits :
    (row : Row) (order : Order) (s : OrderSettings) → fits row (decide_unclaimed order s) ≡ true
unfolding decide_unclaimed decide_prepared
decide_unclaimed-fits row order s = ground arith

decide_claim-fits :
    (now : ℕ) (order : Order) (s : OrderSettings) (row : Row)
    → fits row (decide_claim now order s row) ≡ true
unfolding decide_claim decide_mapping decide_status
decide_claim-fits now order s none = decide_unclaimed-fits none order s
decide_claim-fits now order s (some m) = ground (arith, decide_unclaimed-fits (some m) order s)

act_links :
    (now token id : ℕ) (r : Replies) (row : Row) (d : Decision)
    → fits row d ≡ true
    → returned_id (act now token r row d).0 ≡ some id
    → order_id (act now token r row d).1 ≡ some id
unfolding act update_mapped_order record_updated verify_row verify_uncertain_order
    create_mapped_order record_created mark_creating record_recovered
act_links now token id r row (update k) f h = ground arith
act_links now token id r row verify f h = ground arith
act_links now token id r row busy f h = cc
act_links now token id r row (skip reason) f h = cc
act_links now token id r row (invalid stage e) f h = cc
act_links now token id r row (create p) f h = ground arith

-- Whenever a whole job returns a KiotViet order id, created, recovered or updated, the row that it
-- leaves is linked to that id.
pub run_links :
    (now token id : ℕ) (order : Order) (s : OrderSettings) (r : Replies) (row : Row)
    → returned_id (run_shopify_order_sync now token order s r row).0 ≡ some id
    → order_id (run_shopify_order_sync now token order s r row).1 ≡ some id
unfolding run_shopify_order_sync
run_links now token id order s r row =
    act_links now token id r row (decide_claim now order s row) (decide_claim-fits now order s row)
