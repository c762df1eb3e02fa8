-- ===== src/Money/Rounding.antt =====
-- Rounding to whole cents.
use store_kiotviet.Base.{ℕ, ◌*◌, ◌<◌, arith}
use store_kiotviet.Base.Int.{ℤ, pos, negsuc, ◌+ℤ◌, ◌*ℤ◌, ◌≤ℤ◌, floor_div, round_div, int_laws}

-- Flooring, as an inequality on both sides: n * floor(a / n) ≤ a < n * floor(a / n) + n.
pub floor_div_bounds :
    (a : ℤ) (n : ℕ)
    → 0 < n
    → (floor_div a n *ℤ n ≤ℤ a) × (a +ℤ pos 1 ≤ℤ floor_div a n *ℤ n +ℤ pos n)
unfolding floor_div
floor_div_bounds (pos a) n h = grind int_laws
floor_div_bounds (negsuc a) n h = grind int_laws

-- Twice the rounding error is at most the divisor, and a half is rounded up.
pub round_div_bounds :
    (a : ℤ) (n : ℕ)
    → 0 < n
    → (round_div a n *ℤ (2 * n) ≤ℤ a *ℤ 2 +ℤ pos n)
      × (a *ℤ 2 +ℤ pos 1 ≤ℤ round_div a n *ℤ (2 * n) +ℤ pos n)
unfolding round_div
round_div_bounds a n h =
    let b = floor_div_bounds (a *ℤ 2 +ℤ pos n) (2 * n) (omega arith) in (b.0, omega (int_laws, b.1))
