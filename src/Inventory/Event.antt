-- ===== src/Inventory/Event.antt =====
-- syncInventoryNotification as a whole: a KiotViet stock event, from the event to the level. Each
-- branch and product has a lock, so no other event of theirs runs in between.
pub mod Written
mod Tests
use store_kiotviet.Base.{
  ℕ, Bool, true, false, ◌&&◌, Option, none, some, List, Result, ok, err, AppError, ◌>>=◌,
  if◌then◌else◌, ◌==◌,
}
use store_kiotviet.Base.Int.{ℤ}
use store_kiotviet.Text.{Text}
use store_kiotviet.Inventory.{
  ConflictStrategy, Stock, Sales, SyncOutcome, calculate_inventory, sync_level,
}
use store_kiotviet.Inventory.Routing.{
  ProductMapping, BranchLocation, find_inventory_item, find_location,
}

pub record StockEvent : Type 0 where
  pub code : Option Text
  pub product : ℕ
  pub branch : ℕ
  pub on_hand : ℤ

-- What the services answer: KiotViet's stock of the branch now, the mappings, Shopify's active
-- locations, and whether the level is active, once it was activated where it was not.
pub record Answers : Type 0 where
  pub fresh_on_hand : Result (Option ℤ)
  pub mappings : Text → List ProductMapping
  pub active_locations : List ℕ
  pub activation : Result Bool

-- The mappings of branches, and the stock of each item at each location.
pub record Store : Type 0 where
  pub table : List BranchLocation
  pub stock : (item location : ℕ) → Stock

-- currentKiotVietStock, with the stock that it reads.
unfoldable pub current_on_hand : Bool → Result (Option ℤ) → ℤ → Result ℤ
current_on_hand false fresh on_hand = ok on_hand
current_on_hand true (err e) on_hand = err e
current_on_hand true (ok none) on_hand = err AppError.retryable
current_on_hand true (ok (some now)) on_hand = ok now

unfoldable pub check_active : Result Bool → Result (Unit {0})
check_active (err e) = err e
check_active (ok false) = err AppError.retryable
check_active (ok true) = ok tt

abbrev pub put_stock : (item location : ℕ) → Stock → Store → Store
put_stock item location st s = record s {
  stock = λ i l. if i == item && l == location then st else s.stock i l;
}

abbrev pub finish :
    (item location : ℕ) → Store → Result SyncOutcome × Stock → Result SyncOutcome × Store
finish item location s end = (end.0, put_stock item location end.1 s)

-- With the location found and its level active, or not.
unfoldable pub write_active :
    ConflictStrategy
    → Sales
    → (item : ℕ) (on_hand : ℤ) → Store
    → BranchLocation
    → Result (Unit {0})
    → Result SyncOutcome × Store
write_active strategy sales item on_hand s r (err e) = (err e, s)
write_active strategy sales item on_hand s r (ok _) = finish item r.location s (
    sync_level strategy (calculate_inventory on_hand r.safety_stock false) sales
      (s.stock item r.location))

unfoldable pub write_location :
    ConflictStrategy
    → Answers
    → Sales
    → (item : ℕ) (on_hand : ℤ) → Store
    → Result BranchLocation
    → Result SyncOutcome × Store
unfolding check_active write_active
write_location strategy answers sales item on_hand s (err e) = (err e, s)
write_location strategy answers sales item on_hand s (ok r) =
    write_active strategy sales item on_hand s r (check_active answers.activation)

-- With the item found: the branch's location is looked up, and maybe mapped.
unfoldable pub write_item :
    ConflictStrategy
    → Answers
    → Sales
    → (branch : ℕ) (on_hand : ℤ) → Store
    → Result ℕ
    → Result SyncOutcome × Store
unfolding write_location
write_item strategy answers sales branch on_hand s (err e) = (err e, s)
write_item strategy answers sales branch on_hand s (ok item) =
    let (found, table) = find_location branch answers.active_locations s.table in
    write_location strategy answers sales item on_hand (record s { table = table }) found

unfoldable pub write_on_hand :
    ConflictStrategy → Answers → Sales → StockEvent → Store → Result ℤ → Result SyncOutcome × Store
unfolding write_item
write_on_hand strategy answers sales event s (err e) = (err e, s)
write_on_hand strategy answers sales event s (ok on_hand) =
    write_item strategy answers sales event.branch on_hand s
      (find_inventory_item event.code event.product answers.mappings)

unfoldable pub sync_inventory_notification :
    (refresh : Bool)
    → ConflictStrategy
    → Answers
    → Sales
    → StockEvent
    → Store
    → Result SyncOutcome × Store
unfolding write_on_hand current_on_hand
sync_inventory_notification refresh strategy answers sales event s =
    write_on_hand strategy answers sales event s
      (current_on_hand refresh answers.fresh_on_hand event.on_hand)
