-- ===== src/Inventory/Routing.antt =====
-- Which Shopify item and which location a KiotViet stock event writes, of lib/sync/inventory-sync.ts.
pub mod OneBranch
use store_kiotviet.Base.{
  ℕ, Bool, true, false, ◌&&◌, ◌||◌, not, Option, none, some, List, [], ◌∷◌, ◌++◌, Result, ok, err,
  AppError, ◌>>=◌, if◌then◌else◌, ◌==◌, ltb, keep_if, any_of, is_empty, length,
}
use store_kiotviet.Base.Int.{ℤ, pos}
use store_kiotviet.Text.{Text, normalize_sku}

-- A row of the product mappings of a SKU.
pub record ProductMapping : Type 0 where
  pub archived : Bool
  pub kiotviet_product_id : Option ℕ
  pub shopify_inventory_item_id : Option ℕ

abbrev differs_from : ℕ → Option ℕ → Bool
differs_from id none = false
differs_from id (some k) = not (k == id)

abbrev item_of : Option ℕ → Result ℕ
item_of none = err AppError.mapping
item_of (some item) = ok item

only_mapping : ℕ → List ProductMapping → Result ℕ
only_mapping product_id [] = err AppError.mapping
only_mapping product_id (m ∷ []) =
    if differs_from product_id m.kiotviet_product_id
    then err AppError.mapping
    else item_of m.shopify_inventory_item_id
only_mapping product_id (m ∷ n ∷ rest) = err AppError.conflict

-- The inventory item of the event's SKU; `mappings` are the rows that the SKU finds.
unfoldable pub find_inventory_item : Option Text → ℕ → (Text → List ProductMapping) → Result ℕ
unfolding only_mapping
find_inventory_item code product_id mappings =
    let sku = normalize_sku code in
    if is_empty sku
    then err AppError.mapping
    else only_mapping product_id (keep_if (λ m. not m.archived) (mappings sku))

-- A row of branch_location_mappings.
pub record BranchLocation : Type 0 where
  pub branch : ℕ
  pub location : ℕ
  pub enabled : Bool
  pub safety_stock : ℤ

abbrev pub serves : ℕ → BranchLocation → Bool
serves branch r = r.branch == branch && r.enabled

-- Another enabled branch that writes the location.
abbrev pub shares : (branch location : ℕ) → BranchLocation → Bool
shares branch location r = r.location == location && r.enabled && not (r.branch == branch)

abbrev pub at_pair : (branch location : ℕ) → BranchLocation → Bool
at_pair branch location r = r.branch == branch && r.location == location

unfoldable pub existing_row : List BranchLocation → Result BranchLocation
existing_row [] = err AppError.mapping
existing_row (r ∷ rest) = if r.enabled then ok r else err AppError.mapping

abbrev pub automatic : (branch location : ℕ) → BranchLocation
automatic branch location = record {
  branch = branch;
  location = location;
  enabled = true;
  safety_stock = pos 0;
}

-- The insert of a mapping to the only active location: not onto a location that another enabled
-- branch writes, and not where the pair has a row.
unfoldable pub map_automatically :
    (branch location : ℕ) → List BranchLocation → Result BranchLocation × List BranchLocation
unfolding existing_row
map_automatically branch location table =
    if not (any_of (shares branch location) table) && not (any_of (at_pair branch location) table)
    then (ok (automatic branch location), table ++ automatic branch location ∷ [])
    else (existing_row (keep_if (at_pair branch location) table), table)

unfoldable pub unmapped_branch :
    ℕ → (active : List ℕ) → List BranchLocation → Result BranchLocation × List BranchLocation
unfolding map_automatically
unmapped_branch branch [] table = (err AppError.mapping, table)
unmapped_branch branch (location ∷ []) table = map_automatically branch location table
unmapped_branch branch (location ∷ other ∷ rest) table = (err AppError.mapping, table)

-- The only enabled row of the branch, which no other enabled branch shares.
unfoldable pub mapped_branch : ℕ → List BranchLocation → List BranchLocation → Result BranchLocation
mapped_branch branch table [] = err AppError.mapping
mapped_branch branch table (r ∷ []) =
    if any_of (shares branch r.location) table then err AppError.conflict else ok r
mapped_branch branch table (r ∷ s ∷ rest) = err AppError.conflict

-- The location that the branch writes; `active` are Shopify's active locations.
unfoldable pub find_location :
    ℕ → (active : List ℕ) → List BranchLocation → Result BranchLocation × List BranchLocation
unfolding unmapped_branch mapped_branch
find_location branch active table =
    let rows = keep_if (serves branch) table in
    if is_empty rows
    then unmapped_branch branch active table
    else (mapped_branch branch table rows, table)
