-- ===== src/Inventory.antt =====
-- lib/sync/inventory-sync.ts: KiotViet stock to one Shopify inventory level. `Routing` finds the
-- product mapping and the location of a branch; here are the numbers and the write itself.
-- KiotViet stock and safety stock are in thousandths of a unit, Shopify's quantities whole units.
pub mod Routing
pub mod Levels
pub mod Event
mod Tests
use store_kiotviet.Base.{
  ℕ, ◌+◌, Bool, true, false, ◌&&◌, ◌||◌, not, Option, none, some, List, [], ◌∷◌, Result, ok, err,
  AppError, if◌then◌else◌,
}
use store_kiotviet.Base.Int.{ℤ, pos, ◌-ℤ◌, ltb_ℤ, leb_ℤ, eqb_ℤ, min_ℤ, floor_div}

-- Reserved stock does not reduce what Shopify may sell.
unfoldable pub calculate_inventory : (on_hand safety_stock : ℤ) (allows_negative : Bool) → ℤ
unfolding floor_div
calculate_inventory on_hand safety_stock allows_negative =
    let value = floor_div (on_hand -ℤ safety_stock) 1000 in
    if allows_negative || leb_ℤ (pos 0) value then value else pos 0

pub record Deduction : Type 0 where
  pub last_synced : ℤ
  pub current_shopify : ℤ
  pub expected : ℤ
  pub shopify_deduction : ℤ
  pub would_restore : ℤ

unfoldable pub detect_unreflected_shopify_deduction :
    Option ℤ → (current expected : ℤ) → Option Deduction
detect_unreflected_shopify_deduction none current expected = none
detect_unreflected_shopify_deduction (some last) current expected =
    let deduction = last -ℤ current in
    if leb_ℤ deduction (pos 0) || leb_ℤ expected current
    then none
    else some (record {
      last_synced = last;
      current_shopify = current;
      expected = expected;
      shopify_deduction = deduction;
      would_restore = min_ℤ deduction (expected -ℤ current);
    })

pub data ConflictStrategy : Type 0 where
  hold kiotviet_wins : ConflictStrategy

-- A row of inventory_snapshots for this SKU and location; `held` is its status.
pub record Snapshot : Type 0 where
  pub shopify_quantity : ℤ
  pub expected_quantity : ℤ
  pub held : Bool

-- lastSyncedShopifyQuantity: the newest row that was neither held nor left unverified.
unfoldable pub last_synced_shopify_quantity : List Snapshot → Option ℤ
last_synced_shopify_quantity [] = none
last_synced_shopify_quantity (s ∷ older) =
    if not s.held && eqb_ℤ s.shopify_quantity s.expected_quantity
    then some s.shopify_quantity
    else last_synced_shopify_quantity older

-- The Shopify level of the item at the location, the snapshots, newest first, and whether an open
-- conflict says that a deduction is not reflected.
pub record Stock : Type 0 where
  pub available : ℤ
  pub snapshots : List Snapshot
  pub conflict_open : Bool

pub data SyncOutcome : Type 0 where
  synced held : SyncOutcome

-- Units that Shopify sells while the job runs: after the level was read and before the write, and
-- after the write and before it is read back.
pub record Sales : Type 0 where
  pub before_write : ℕ
  pub before_readback : ℕ

abbrev pub sell : ℕ → Stock → Stock
sell n st = record st { available = st.available -ℤ pos n }

abbrev pub snapshot : Bool → ℤ → Stock → Stock
snapshot kept_back expected st = record st {
  snapshots =
      record { shopify_quantity = st.available; expected_quantity = expected; held = kept_back }
      ∷ st.snapshots;
}

-- setShopifyInventory: Shopify refuses the write if the level is no longer `from`.
unfoldable pub set_shopify_inventory : (quantity from : ℤ) → Stock → Result Stock
set_shopify_inventory quantity from st =
    if eqb_ℤ st.available from
    then ok (record st { available = quantity })
    else err AppError.retryable

abbrev is_detected : Option Deduction → Bool
is_detected none = false
is_detected (some d) = true

abbrev is_hold : ConflictStrategy → Bool
is_hold hold = true
is_hold kiotviet_wins = false

-- `active.available < lastSynced`
abbrev dropped : Option ℤ → ℤ → Bool
dropped none current = false
dropped (some last) current = ltb_ℤ current last

-- From the readback on: the snapshot is kept whatever was read, and the outcome depends on it.
unfoldable pub verify_level :
    (detected drop : Bool) (expected : ℤ) → Stock → Result SyncOutcome × Stock
verify_level detected drop expected st =
    let recorded = snapshot false expected st in
    if not (eqb_ℤ st.available expected) then (err AppError.retryable, recorded) else (
      ok synced,
      if not detected && drop then record recorded { conflict_open = false } else recorded,
    )

abbrev write_level : (current expected : ℤ) → Stock → Result Stock
write_level current expected st =
    if eqb_ℤ current expected then ok st else set_shopify_inventory expected current st

abbrev after_write :
    (detected drop : Bool) (expected : ℤ) (sold : ℕ)
    → Stock
    → Result Stock
    → Result SyncOutcome × Stock
after_write detected drop expected sold st (err e) = (err e, sell sold st)
after_write detected drop expected sold st (ok written) =
    verify_level detected drop expected (sell sold written)

-- The level is active, and stays so, and `st.available` was just read.
unfoldable pub sync_level : ConflictStrategy → ℤ → Sales → Stock → Result SyncOutcome × Stock
unfolding verify_level set_shopify_inventory last_synced_shopify_quantity
    detect_unreflected_shopify_deduction
sync_level strategy expected sales st =
    let current = st.available in
    let last = last_synced_shopify_quantity st.snapshots in
    let detected = is_detected (detect_unreflected_shopify_deduction last current expected) in
    let flagged = record st { conflict_open = st.conflict_open || detected } in
    if detected && is_hold strategy
    then (
      ok held,
      sell (sales.before_write + sales.before_readback) (snapshot true expected flagged),
    )
    else let met = sell sales.before_write flagged in
      after_write detected (dropped last current) expected sales.before_readback met
        (write_level current expected met)
