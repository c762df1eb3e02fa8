-- ===== src/Inventory/Event/Tests.antt =====
-- Trying an event of a mapped product in a branch that has no location.
use store_kiotviet.Base.{◌≡◌, ◌⊎◌, true, false, none, some, [], ◌∷◌, ok}
use store_kiotviet.Base.Int.{pos}
use store_kiotviet.Text.{codes}
use store_kiotviet.Inventory.{hold}
use store_kiotviet.Inventory.Event.{StockEvent, Answers, Store, sync_inventory_notification}
use store_kiotviet.Inventory.Event.Written.{IsOwn, sync_inventory_notification_changes}

abbrev event : StockEvent
event = record { code = some (codes "ab1"); product = 3; branch = 4; on_hand = pos 7000 }

abbrev answers : Answers
answers = record {
  fresh_on_hand = ok none;
  mappings = λ sku.
      record { archived = false; kiotviet_product_id = some 3; shopify_inventory_item_id = some 11 }
      ∷ [];
  active_locations = 9 ∷ [];
  activation = ok true;
}

abbrev empty_store : Store
empty_store = record {
  table = [];
  stock = λ item location. record { available = pos 0; snapshots = []; conflict_open = false };
}

sync_inventory_notification_changes_example :
    let s' =
      (sync_inventory_notification false hold answers
        (record { before_write = 0; before_readback = 0 })
        event
        empty_store).1 in
    (s'.stock 11 9 ≡ empty_store.stock 11 9) ⊎ IsOwn event answers 11 9 s'
sync_inventory_notification_changes_example =
    sync_inventory_notification_changes false hold answers
      (record { before_write = 0; before_readback = 0 }) event empty_store 11 9
