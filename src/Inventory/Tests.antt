-- ===== src/Inventory/Tests.antt =====
-- Trying a stock event of a branch with one location.
use store_kiotviet.Base.{◌+◌, ◌≡◌, ◌≢◌, ◌⊎◌, refl, ok, false, none, some, [], ◌∷◌}
use store_kiotviet.Base.Int.{pos, ◌-ℤ◌}
use store_kiotviet.Inventory.{
  Deduction, detect_unreflected_shopify_deduction, last_synced_shopify_quantity, Stock, Sales,
  kiotviet_wins, sync_level,
}
use store_kiotviet.Inventory.Levels.{sales_kept}
use store_kiotviet.Inventory.Routing.{automatic, find_location}

-- The level was synced at 10 and two units were sold since.
abbrev stock : Stock
stock = record {
  available = pos 8;
  snapshots = record { shopify_quantity = pos 10; expected_quantity = pos 10; held = false } ∷ [];
  conflict_open = false;
}

abbrev sales : Sales
sales = record { before_write = 0; before_readback = 1 }

abbrev deduction : Deduction
deduction = record {
  last_synced = pos 10;
  current_shopify = pos 8;
  expected = pos 10;
  shopify_deduction = pos 2;
  would_restore = pos 2;
}

stock-deduction :
    detect_unreflected_shopify_deduction
      (last_synced_shopify_quantity stock.snapshots)
      stock.available
      (pos 10)
    ≡ some deduction
unfolding detect_unreflected_shopify_deduction last_synced_shopify_quantity ◌-ℤ◌
stock-deduction = refl

stock-detected :
    detect_unreflected_shopify_deduction
      (last_synced_shopify_quantity stock.snapshots)
      stock.available
      (pos 10)
    ≢ none
stock-detected h = let e = stock-deduction in cc

sales_kept_example :
    let st' = (sync_level kiotviet_wins (pos 10) sales stock).1 in
    (st'.available ≡ pos 8 -ℤ pos (0 + 1))
    ⊎ ((sales.before_write ≡ 0) × (st'.available ≡ pos 10 -ℤ pos sales.before_readback))
sales_kept_example = sales_kept kiotviet_wins (pos 10) sales stock

-- Branch 4 has no location yet, and 9 is the only active one.
mapped : find_location 4 (9 ∷ []) [] ≡ (ok (automatic 4 9), automatic 4 9 ∷ [])
unfolding find_location
mapped = refl
