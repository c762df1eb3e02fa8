-- ===== src/OrderSync/StatusWebhook/Tests.antt =====
-- Trying a completion, and one during a cancellation.
use store_kiotviet.Base.{Result, ◌||◌, ◌≡◌, refl, true, false, none, some, ok, err, AppError, []}
use store_kiotviet.OrderSync.Decision.{Mapping, created, cancelled, synced}
use store_kiotviet.OrderSync.StatusWebhook.{
  cancelled_in_shopify, fulfilled_in_shopify, sync_kiot_viet_order_status,
}
use store_kiotviet.OrderSync.StatusWebhook.Terminal.{
  row_cancelled, row_completed, is_row, status_keeps_cancelled,
}

abbrev done : Result (Unit {0})
done = ok tt

abbrev open_order : Mapping
open_order = record {
  kiot_viet_order_id = some 42;
  status = some created;
  sync_status = synced;
  claim_token = none;
  created_at = 0;
  claimed_at = some 0;
  failure_stage = none;
}

abbrev closed_order : Mapping
closed_order = record open_order { status = some cancelled }

completes :
    (sync_kiot_viet_order_status (some 42) 3 [] false done (some open_order) (some open_order)).0
    ≡ ok fulfilled_in_shopify
unfolding sync_kiot_viet_order_status
completes = refl

-- The order is cancelled while Shopify is asked to fulfil it.
status_keeps_cancelled_example :
    let (r, written) =
      sync_kiot_viet_order_status (some 42) 3 [] false done (some closed_order) (some open_order) in
    (row_cancelled (some closed_order) ≡ true → row_cancelled written ≡ true)
    × (r ≡ ok cancelled_in_shopify
        → is_row (some closed_order) ≡ true
        → row_cancelled written ≡ true)
    × (r ≡ ok fulfilled_in_shopify
        → is_row (some closed_order) ≡ true
        → (row_completed written || row_cancelled (some closed_order)) ≡ true)
    × ((e : AppError) → r ≡ err e → written ≡ some closed_order)
status_keeps_cancelled_example =
    status_keeps_cancelled (some 42) 3 [] false done (some closed_order) (some open_order)
