-- ===== src/Inventory/Levels.antt =====
-- What a stock write does to units that Shopify sold.
use store_kiotviet.Base.{ℕ, ◌+◌, ◌≡◌, ◌≢◌, true, none, some, arith, ◌⊎◌, ◌↔◌}
use store_kiotviet.Base.Int.{
  ℤ, pos, ◌+ℤ◌, ◌-ℤ◌, ◌≤ℤ◌, eqb_ℤ, int_laws, -ℤ_parts, +ℤ_parts, eq_of_parts, ◌*ℤ◌,
}
use store_kiotviet.Inventory.{
  detect_unreflected_shopify_deduction, ConflictStrategy, Stock, Sales, sync_level,
}

AtLeastZero : ℤ → ℤ → Type 0
AtLeastZero f v = ((pos 0 ≤ℤ f) × (v ≡ f)) ⊎ ((f +ℤ pos 1 ≤ℤ pos 0) × (v ≡ pos 0))

-- The largest number of whole units that fit into the stock with the safety stock, if any.
pub IsLargestLevel : (on_hand safety v : ℤ) → Type 0
IsLargestLevel on_hand safety v =
    (pos 0 ≤ℤ v)
    × ((v ≡ pos 0) ⊎ (v *ℤ 1000 +ℤ safety ≤ℤ on_hand))
    × (on_hand +ℤ pos 1 ≤ℤ (v +ℤ pos 1) *ℤ 1000 +ℤ safety)

-- With a last synced level, a deduction is reported exactly when Shopify is below that level and
-- the write would raise it.
pub detect_iff :
    (last current expected : ℤ)
    → (detect_unreflected_shopify_deduction (some last) current expected ≢ none)
      ↔ ((current +ℤ pos 1 ≤ℤ last) × (current +ℤ pos 1 ≤ℤ expected))
unfolding detect_unreflected_shopify_deduction
detect_iff last current expected = ground (arith, -ℤ_parts last current, +ℤ_parts current (pos 1))

sub_sub : (a : ℤ) (m n : ℕ) → a -ℤ pos m -ℤ pos n ≡ a -ℤ pos (m + n)
sub_sub a m n = eq_of_parts _ _ (omega int_laws)

unsold : (a : ℤ) (n : ℕ) → eqb_ℤ (a -ℤ pos n) a ≡ true → n ≡ 0
unsold a n e = ground (arith, -ℤ_parts a (pos n))

same : (a b : ℤ) → eqb_ℤ a b ≡ true → a ≡ b
same a b e = eq_of_parts a b (ground arith)

-- However many units Shopify sells between the read, the write and the readback, the level at the
-- end is the read one less all sales, or, if none was sold before the write, the expected level
-- less the sales after it.
pub sales_kept :
    (strategy : ConflictStrategy) (expected : ℤ) (sales : Sales) (st : Stock)
    → let st' = (sync_level strategy expected sales st).1 in
      (st'.available ≡ st.available -ℤ pos (sales.before_write + sales.before_readback))
      ⊎ ((sales.before_write ≡ 0) × (st'.available ≡ expected -ℤ pos sales.before_readback))
unfolding sync_level
sales_kept strategy expected sales st = ground (
  arith,
  sub_sub st.available sales.before_write sales.before_readback,
  unsold st.available sales.before_write,
  same st.available expected,
)
