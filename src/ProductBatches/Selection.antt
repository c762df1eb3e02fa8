-- ===== src/ProductBatches/Selection.antt =====
-- Which products a bulk synchronisation selects (lib/queue/product-sync-batches.ts).
use store_kiotviet.Base.{
  ◌+◌, ◌≡◌, Bool, true, false, ◌&&◌, ◌||◌, List, [], ◌∷◌, length, any_of, ◌==◌, All, map,
}
use store_kiotviet.Text.{Text, text_eq, normalize_sku}
use store_kiotviet.ProductBatches.{
  KiotVietProduct, FamilyKey, same_key, ProductSyncCandidate, is_sound, has_key, family_key_of,
  Chosen,
}

abbrev pub candidate_of : List KiotVietProduct → ProductSyncCandidate → KiotVietProduct → Bool
candidate_of all c p =
    is_sound all p && c.product_id == p.id && same_key c.family_key (family_key_of all p)

-- No key stands twice, and none is an earlier one.
abbrev pub IsFresh : List FamilyKey → List ProductSyncCandidate → Type 0
IsFresh seen [] = Unit {0}
IsFresh seen (c ∷ cs) = (has_key c.family_key seen ≡ false) × IsFresh (c.family_key ∷ seen) cs

abbrev pub keys_of : List ProductSyncCandidate → List FamilyKey
keys_of cs = map (λ c. c.family_key) cs

-- The family of a product that can be sold and whose SKU is its own was seen or is selected.
abbrev pub Covers :
    List KiotVietProduct → List FamilyKey → List ProductSyncCandidate → KiotVietProduct → Type 0
Covers all seen cs p =
    is_sound all p ≡ true
    → (has_key (family_key_of all p) seen || has_key (family_key_of all p) (keys_of cs)) ≡ true

-- A product whose SKU is its own: no product with another id has it.
abbrev pub OwnsSku : List KiotVietProduct → KiotVietProduct → Type 0
OwnsSku products p =
    All (λ q. text_eq (normalize_sku q.code) (normalize_sku p.code) ≡ true → q.id ≡ p.id) products

pub record IsSelection (seen : List FamilyKey) (products : List KiotVietProduct) (chosen : Chosen)
    : Type 0 where
  -- each product is a candidate or is skipped
  pub counts : length chosen.0 + chosen.1 ≡ length products
  -- no family twice, and none that was seen
  pub fresh : IsFresh seen chosen.0
  -- each is of a product that can be sold and whose SKU no other product has
  pub drawn : All (λ c. any_of (candidate_of products c) products ≡ true) chosen.0
  -- where the SKU of such a product is its own
  pub owned : All (λ p. is_sound products p ≡ true → OwnsSku products p) products
  -- no family of such a product is left out
  pub complete : All (Covers products seen chosen.0) products
