-- ===== src/ProductBatches.antt =====
-- lib/queue/product-sync-batches.ts: the products of the KiotViet catalogue that a bulk
-- synchronisation queues, one for each family of variants.
pub mod Selection
mod Tests
use store_kiotviet.Base.{
  ℕ, ◌+◌, Bool, true, false, not, ◌&&◌, ◌||◌, Option, none, some, List, [], ◌∷◌, length, keep_if,
  any_of, has_id, is_empty, if◌then◌else◌, ltb, ◌==◌, map,
}
use store_kiotviet.Text.{Text, text_eq, normalize_sku}

-- A flag that KiotViet leaves out is `none`.
pub record KiotVietProduct : Type 0 where
  pub id : ℕ
  pub code : Option Text
  pub master_product_id : Option ℕ
  pub has_variants : Bool
  pub is_active : Option Bool
  pub allows_sale : Option Bool

pub data FamilyKey : Type 0 where
  family single : ℕ → FamilyKey

abbrev pub same_key : FamilyKey → FamilyKey → Bool
same_key (family m) (family n) = m == n
same_key (single m) (single n) = m == n
same_key _ _ = false

pub record ProductSyncCandidate : Type 0 where
  pub product_id : ℕ
  pub family_key : FamilyKey

-- `flag !== false`
abbrev is_kept : Option Bool → Bool
is_kept (some false) = false
is_kept _ = true

unfoldable pub is_bulk_sync_eligible : KiotVietProduct → Bool
is_bulk_sync_eligible p =
    is_kept p.is_active && is_kept p.allows_sale && not (is_empty (normalize_sku p.code))

abbrev master_id : Option ℕ → Option ℕ
master_id (some n) = if ltb 0 n then some n else none
master_id none = none

-- The products that are the master of another one.
unfoldable pub is_family_root : List KiotVietProduct → ℕ → Bool
is_family_root products id =
    any_of (λ p. elim (master_id p.master_product_id) [ some m ↦ m == id | none ↦ false ]) products

unfoldable pub family_key_of : List KiotVietProduct → KiotVietProduct → FamilyKey
unfolding is_family_root
family_key_of products p = elim (master_id p.master_product_id) [
  | some m ↦ family m
  | none ↦ if p.has_variants || is_family_root products p.id then family p.id else single p.id
]

-- The set of the ids with a SKU.
unfoldable pub product_ids : Text → List KiotVietProduct → List ℕ
product_ids sku [] = []
product_ids sku (p ∷ products) =
    let ids = product_ids sku products in
    if text_eq (normalize_sku p.code) sku && not (has_id p.id ids) then p.id ∷ ids else ids

unfoldable pub is_conflicting : List KiotVietProduct → Text → Bool
unfolding product_ids
is_conflicting products sku = ltb 1 (length (product_ids sku products))

abbrev pub has_key : FamilyKey → List FamilyKey → Bool
has_key key keys = any_of (same_key key) keys

abbrev pub is_sound : List KiotVietProduct → KiotVietProduct → Bool
is_sound products p =
    is_bulk_sync_eligible p && not (is_conflicting products (normalize_sku p.code))

-- The candidates so far and the number of products that are skipped.
abbrev pub Chosen : Type 0
Chosen = List ProductSyncCandidate × ℕ

abbrev pub with_product : KiotVietProduct → FamilyKey → Chosen → Chosen
with_product p key rest = (record { product_id = p.id; family_key = key } ∷ rest.0, rest.1)

abbrev pub skipping : Chosen → Chosen
skipping rest = (rest.0, rest.1 + 1)

-- `more` is the rest of the loop, with the keys that were seen.
unfoldable pub choose :
    Bool → KiotVietProduct → FamilyKey → List FamilyKey → (List FamilyKey → Chosen) → Chosen
choose true p key seen more = with_product p key (more (key ∷ seen))
choose false p key seen more = skipping (more seen)

unfoldable pub select_from : List KiotVietProduct → List FamilyKey → List KiotVietProduct → Chosen
unfolding choose family_key_of
select_from all seen [] = ([], 0)
select_from all seen (p ∷ products) =
    let key = family_key_of all p in
    choose (is_sound all p && not (has_key key seen)) p key seen
      (λ keys. select_from all keys products)

unfoldable pub select_kiot_viet_sync_candidates :
    List KiotVietProduct → List FamilyKey → List ProductSyncCandidate × ℕ
unfolding select_from
select_kiot_viet_sync_candidates products seen = select_from products seen products

unfoldable pub dedupe_kiot_viet_sync_products : List KiotVietProduct → List ℕ
unfolding select_kiot_viet_sync_candidates
dedupe_kiot_viet_sync_products products =
    map (λ c. c.product_id) (select_kiot_viet_sync_candidates products []).0
