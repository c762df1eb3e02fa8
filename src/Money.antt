-- ===== src/Money.antt =====
-- Shopify money strings and toCents of lib/sync/order-line-items.ts.
pub mod Rounding
mod Tests
use store_kiotviet.Base.{Result, ok, err, AppError, ◌>>=◌, List, [], ◌∷◌}
use store_kiotviet.Base.Int.{ℤ, pos, ◌+ℤ◌, ◌*ℤ◌, round_div}

-- A money string by what `Number(value)` makes of it: null, undefined or ""; no finite number; or
-- a number, in hundredths of a cent, so that the rounding to cents is still to be done.
pub data Amount : Type 0 where
  absent unreadable : Amount
  decimal : ℤ → Amount

unfoldable pub to_cents : Amount → Result ℤ
to_cents absent = ok (pos 0)
to_cents unreadable = err AppError.validation
to_cents (decimal n) = ok (round_div n 100)

-- `amounts.reduce((sum, amount) => sum + toCents(amount), 0)`
unfoldable pub sum_cents : List Amount → Result ℤ
unfolding to_cents
sum_cents [] = ok (pos 0)
sum_cents (a ∷ rest) = do c ← to_cents a; total ← sum_cents rest; ok (c +ℤ total)

-- The string of a whole number of cents.
abbrev pub whole : ℤ → Amount
whole n = decimal (n *ℤ 100)
