-- ===== src/Settings.antt =====
-- lib/settings/sync-settings.ts: the synchronisation settings and the jobs that they hold back.
mod Tests
use store_kiotviet.Base.{
  ◌≡◌, ◌≢◌, ◌↔◌, refl, Bool, true, false, ◌&&◌, ◌||◌, not, Option, none, some, List, [], ◌∷◌,
  if◌then◌else◌, or_else, all_of, arith,
}
use store_kiotviet.Inventory.{ConflictStrategy, hold, kiotviet_wins}

pub record SynchronizationSettings : Type 0 where
  pub shopify_orders_to_kiot_viet : Bool
  pub kiot_viet_order_status_to_shopify : Bool
  pub kiot_viet_inventory_to_shopify : Bool
  pub shopify_order_cancellations_to_kiot_viet : Bool
  pub inventory_conflict_strategy : ConflictStrategy

abbrev pub default_sync_settings : SynchronizationSettings
default_sync_settings = record {
  shopify_orders_to_kiot_viet = true;
  kiot_viet_order_status_to_shopify = false;
  kiot_viet_inventory_to_shopify = true;
  shopify_order_cancellations_to_kiot_viet = true;
  inventory_conflict_strategy = hold;
}

abbrev pub legacy_sync_settings : SynchronizationSettings
legacy_sync_settings = record default_sync_settings {
  kiot_viet_order_status_to_shopify = true;
  inventory_conflict_strategy = kiotviet_wins;
}

-- The fields of a stored object, each `none` where it is missing or of another type.
pub record StoredSettings : Type 0 where
  pub orders : Option Bool
  pub order_status : Option Bool
  pub inventory : Option Bool
  pub cancellations : Option Bool
  pub strategy : Option ConflictStrategy

-- The value of the row; `none` where there is no row.
unfoldable pub parse_sync_settings : Option StoredSettings → SynchronizationSettings
parse_sync_settings none = legacy_sync_settings
parse_sync_settings (some stored) = record {
  shopify_orders_to_kiot_viet =
      or_else stored.orders default_sync_settings.shopify_orders_to_kiot_viet;
  kiot_viet_order_status_to_shopify =
      or_else stored.order_status default_sync_settings.kiot_viet_order_status_to_shopify;
  kiot_viet_inventory_to_shopify =
      or_else stored.inventory default_sync_settings.kiot_viet_inventory_to_shopify;
  shopify_order_cancellations_to_kiot_viet =
      or_else stored.cancellations default_sync_settings.shopify_order_cancellations_to_kiot_viet;
  inventory_conflict_strategy =
      or_else stored.strategy default_sync_settings.inventory_conflict_strategy;
}

-- The job types that a setting can hold back, and any other.
pub data JobType : Type 0 where
  shopify_invoice_create shopify_fulfillment fulfillment_invoice_reconciliation : JobType
  shopify_order_create shopify_order_update shopify_order_cancel : JobType
  kiotviet_order_to_shopify kiotviet_invoice_to_shopify : JobType
  kiotviet_inventory_to_shopify inventory_reconciliation full_inventory_sync : JobType
  other_job : JobType

abbrev pub is_order_job : JobType → Bool
is_order_job shopify_invoice_create = true
is_order_job shopify_fulfillment = true
is_order_job fulfillment_invoice_reconciliation = true
is_order_job shopify_order_create = true
is_order_job shopify_order_update = true
is_order_job _ = false

abbrev pub is_order_status_job : JobType → Bool
is_order_status_job kiotviet_order_to_shopify = true
is_order_status_job kiotviet_invoice_to_shopify = true
is_order_status_job _ = false

abbrev pub is_inventory_job : JobType → Bool
is_inventory_job kiotviet_inventory_to_shopify = true
is_inventory_job inventory_reconciliation = true
is_inventory_job full_inventory_sync = true
is_inventory_job _ = false

abbrev pub is_cancellation : JobType → Bool
is_cancellation shopify_order_cancel = true
is_cancellation _ = false

unfoldable pub is_sync_gated_job : JobType → Bool
is_sync_gated_job type =
    is_order_job type || is_cancellation type || is_order_status_job type || is_inventory_job type

-- The name of the setting that is off.
pub data SyncFlag : Type 0 where
  orders_flag order_status_flag inventory_flag cancellations_flag : SyncFlag

abbrev pub flag_of : SynchronizationSettings → SyncFlag → Bool
flag_of s orders_flag = s.shopify_orders_to_kiot_viet
flag_of s order_status_flag = s.kiot_viet_order_status_to_shopify
flag_of s inventory_flag = s.kiot_viet_inventory_to_shopify
flag_of s cancellations_flag = s.shopify_order_cancellations_to_kiot_viet

unfoldable pub disabled_sync_for_job : JobType → SynchronizationSettings → Option SyncFlag
disabled_sync_for_job type s =
    if (is_order_job type || is_cancellation type) && not s.shopify_orders_to_kiot_viet
    then some orders_flag
    else if is_cancellation type && not s.shopify_order_cancellations_to_kiot_viet
    then some cancellations_flag
    else if is_order_status_job type && not s.kiot_viet_order_status_to_shopify
    then some order_status_flag
    else if is_inventory_job type && not s.kiot_viet_inventory_to_shopify
    then some inventory_flag
    else none

-- The settings that a job of this type needs.
abbrev pub needs : JobType → List SyncFlag
needs shopify_invoice_create = orders_flag ∷ []
needs shopify_fulfillment = orders_flag ∷ []
needs fulfillment_invoice_reconciliation = orders_flag ∷ []
needs shopify_order_create = orders_flag ∷ []
needs shopify_order_update = orders_flag ∷ []
needs shopify_order_cancel = orders_flag ∷ cancellations_flag ∷ []
needs kiotviet_order_to_shopify = order_status_flag ∷ []
needs kiotviet_invoice_to_shopify = order_status_flag ∷ []
needs kiotviet_inventory_to_shopify = inventory_flag ∷ []
needs inventory_reconciliation = inventory_flag ∷ []
needs full_inventory_sync = inventory_flag ∷ []
needs other_job = []

-- A job may run exactly when every setting that its type needs is on.
pub disabled_sync_for_job_iff :
    (type : JobType) (s : SynchronizationSettings)
    → (disabled_sync_for_job type s ≡ none) ↔ (all_of (flag_of s) (needs type) ≡ true)
unfolding disabled_sync_for_job
disabled_sync_for_job_iff type s = ground arith
