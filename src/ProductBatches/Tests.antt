-- ===== src/ProductBatches/Tests.antt =====
-- Concrete runs of lib/queue/product-sync-batches.ts.
use store_kiotviet.Base.{ℕ, ◌≡◌, refl, false, Option, none, some, List, [], ◌∷◌}
use store_kiotviet.Text.{Text, codes, normalize_sku}
use store_kiotviet.ProductBatches.{
  KiotVietProduct, single, is_bulk_sync_eligible, is_conflicting, select_kiot_viet_sync_candidates,
  dedupe_kiot_viet_sync_products,
}

abbrev product_of : ℕ → Text → Option ℕ → KiotVietProduct
product_of id code master = record {
  id = id;
  code = some code;
  master_product_id = master;
  has_variants = false;
  is_active = none;
  allows_sale = none;
}

-- Two variants of product 1, which stands on the list, a product alone, two with one SKU, and one
-- without a SKU.
abbrev catalog : List KiotVietProduct
catalog =
    product_of 2 (codes "A-2") (some 1)
    ∷ product_of 1 (codes "A-1") none
    ∷ product_of 3 (codes "B") (some 0)
    ∷ product_of 4 (codes "c ") none
    ∷ product_of 5 (codes "C") none
    ∷ product_of 6 (codes " ") none
    ∷ []

catalog_ids : dedupe_kiot_viet_sync_products catalog ≡ 2 ∷ 3 ∷ []
unfolding dedupe_kiot_viet_sync_products is_bulk_sync_eligible normalize_sku is_conflicting
catalog_ids = refl

catalog_skips : (select_kiot_viet_sync_candidates catalog (single 3 ∷ [])).1 ≡ 5
unfolding select_kiot_viet_sync_candidates is_bulk_sync_eligible normalize_sku is_conflicting
catalog_skips = refl
