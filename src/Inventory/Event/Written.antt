-- ===== src/Inventory/Event/Written.antt =====
-- Which levels a stock event can change.
use store_kiotviet.Base.{
  ℕ, ◌≡◌, refl, sym, subst, ap, Bool, false, List, Result, ok, err, ◌⊎◌, inl, inr, arith,
}
use store_kiotviet.Base.Int.{ℤ}
use store_kiotviet.Inventory.{ConflictStrategy, Stock, Sales, calculate_inventory, sync_level}
use store_kiotviet.Inventory.Routing.{BranchLocation, find_inventory_item, find_location}
use store_kiotviet.Inventory.Routing.OneBranch.{IsOnly, find_location-IsOnly}
use store_kiotviet.Inventory.Event.{
  StockEvent, Answers, Store, put_stock, check_active, write_active, write_location, write_item,
  write_on_hand, sync_inventory_notification, current_on_hand,
}

-- The level was the event's to write: its SKU has this item, and its branch this location, as its
-- only enabled one that no other enabled branch writes.
pub record IsOwn (event : StockEvent) (answers : Answers) (item location : ℕ) (s : Store)
    : Type 0 where
  pub item_found : find_inventory_item event.code event.product answers.mappings ≡ ok item
  pub row : BranchLocation
  pub only : IsOnly event.branch row s.table
  pub at_location : row.location ≡ location

put_stock_elsewhere :
    (item location i l : ℕ) (st : Stock) (s : Store)
    → ((put_stock item location st s).stock i l ≡ s.stock i l) ⊎ ((i ≡ item) × (l ≡ location))
put_stock_elsewhere item location i l st s = ground arith

write_active-changed :
    (strategy : ConflictStrategy) (event : StockEvent) (answers : Answers) (sales : Sales)
    (item i l : ℕ) (on_hand : ℤ) (s : Store) (r : BranchLocation) (active : Result (Unit {0}))
    → find_inventory_item event.code event.product answers.mappings ≡ ok item
    → IsOnly event.branch r s.table
    → let s' = (write_active strategy sales item on_hand s r active).1 in
      (s'.stock i l ≡ s.stock i l) ⊎ IsOwn event answers i l s'
unfolding write_active
write_active-changed strategy event answers sales item i l on_hand s r (err e) q f = inl refl
write_active-changed strategy event answers sales item i l on_hand s r (ok x) q f =
    let st =
      (sync_level strategy (calculate_inventory on_hand r.safety_stock false) sales
        (s.stock item r.location)).1 in
    elim (put_stock_elsewhere item r.location i l st s) [
      | inl same ↦ inl same
      | inr (e, k) ↦ inr (record {
        item_found =
            subst (λ x. find_inventory_item event.code event.product answers.mappings ≡ ok x)
              (sym e) q;
        row = r;
        only = f;
        at_location = sym k;
      })
    ]

write_item-changed :
    (strategy : ConflictStrategy) (event : StockEvent) (answers : Answers) (sales : Sales) (i l : ℕ)
    (on_hand : ℤ) (s : Store) (found : Result ℕ)
    → find_inventory_item event.code event.product answers.mappings ≡ found
    → let s' = (write_item strategy answers sales event.branch on_hand s found).1 in
      (s'.stock i l ≡ s.stock i l) ⊎ IsOwn event answers i l s'
unfolding write_item write_location
write_item-changed strategy event answers sales i l on_hand s (err e) q = inl refl
write_item-changed strategy event answers sales i l on_hand s (ok item) q =
    go (find_location event.branch answers.active_locations s.table).0 refl
  where
    table : List BranchLocation
    table = (find_location event.branch answers.active_locations s.table).1

    go :
        (m : Result BranchLocation)
        → (find_location event.branch answers.active_locations s.table).0 ≡ m
        → let s' =
            (write_location strategy answers sales item on_hand (record s { table = table }) m).1 in
          (s'.stock i l ≡ s.stock i l) ⊎ IsOwn event answers i l s'
    go (err e) k = inl refl
    go (ok r) k =
        write_active-changed strategy event answers sales item i l on_hand
          (record s { table = table }) r (check_active answers.activation) q
          (find_location-IsOnly event.branch answers.active_locations s.table table r
            (ap (λ m. (m, table)) k))

-- A stock event changes no level but its own: the level of an item at a location stays, or the item
-- is that of the SKU of the event and the location is on the only enabled row of its branch, which
-- no other enabled branch shares.
pub sync_inventory_notification_changes :
    (refresh : Bool) (strategy : ConflictStrategy) (answers : Answers) (sales : Sales)
    (event : StockEvent) (s : Store) (item location : ℕ)
    → let s' = (sync_inventory_notification refresh strategy answers sales event s).1 in
      (s'.stock item location ≡ s.stock item location) ⊎ IsOwn event answers item location s'
unfolding sync_inventory_notification write_on_hand
sync_inventory_notification_changes refresh strategy answers sales event s item location =
    elim (current_on_hand refresh answers.fresh_on_hand event.on_hand)
      as (λ m.
        let s' = (write_on_hand strategy answers sales event s m).1 in
        (s'.stock item location ≡ s.stock item location) ⊎ IsOwn event answers item location s') [
          | err e ↦ inl refl
          | ok on_hand ↦
              write_item-changed strategy event answers sales item location on_hand s _ refl
        ]
