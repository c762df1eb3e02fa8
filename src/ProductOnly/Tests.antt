-- ===== src/ProductOnly/Tests.antt =====
-- Trying the Product-Only rules on refunds, unit prices and payments.
use store_kiotviet.Base.{◌≡◌, refl, ok, false, none, some, [], ◌∷◌, All}
use store_kiotviet.Base.Int.{pos, ◌*ℤ◌, ◌-ℤ◌, ◌+ℤ◌, round_div}
use store_kiotviet.Money.{to_cents, sum_cents}
use store_kiotviet.Lines.{line_discount_cents}
use store_kiotviet.Samples.{shirt, cancelled_unit, shirt_adjusted}
use store_kiotviet.ProductOnly.{discounted_unit_price_cents}
use store_kiotviet.ProductOnly.Refunds.{
  LineFacts, adjust_line, cancelled_refund, compute_refund_adjustments, invalid_problems,
  shipping_problems,
}
use store_kiotviet.ProductOnly.Refunds.Quantities.{compute_refund_adjustments_effective, Adjusted}
use store_kiotviet.ProductOnly.Refunds.Redelivery.{compute_refund_adjustments_again}

-- Of five units one was cancelled, one refunded without restock, and three are fulfilled.
abbrev facts : LineFacts
facts = record {
  id = 1;
  original = 5;
  current = none;
  cancelled = 1;
  unrestocked = 1;
  returned = 0;
  fulfilled = some 3;
  all_subtotals = pos 2000;
  excluded_subtotals = pos 2000;
}

facts_reason : (adjust_line false facts).0.reason ≡ cancelled_refund
unfolding adjust_line invalid_problems shipping_problems
facts_reason = refl

shirt_refund :
    compute_refund_adjustments (cancelled_unit ∷ []) none (shirt ∷ []) false ≡ ok shirt_adjusted
unfolding compute_refund_adjustments to_cents invalid_problems shipping_problems ◌+ℤ◌ round_div ◌*ℤ◌
shirt_refund = refl

compute_refund_adjustments_effective_example :
    All (Adjusted (cancelled_unit ∷ []) (shirt ∷ []) shirt_adjusted) (shirt ∷ [])
compute_refund_adjustments_effective_example =
    compute_refund_adjustments_effective (cancelled_unit ∷ []) none (shirt ∷ []) false
      shirt_adjusted shirt_refund refl

-- The refund is delivered twice.
compute_refund_adjustments_again_example :
    compute_refund_adjustments (cancelled_unit ∷ cancelled_unit ∷ []) none (shirt ∷ []) false
    ≡ compute_refund_adjustments (cancelled_unit ∷ []) none (shirt ∷ []) false
compute_refund_adjustments_again_example =
    compute_refund_adjustments_again 5 (cancelled_unit ∷ []) [] cancelled_unit none (shirt ∷ [])
      false refl refl

shirt_price : discounted_unit_price_cents shirt 3 ≡ ok (some (pos 1000))
unfolding discounted_unit_price_cents to_cents line_discount_cents sum_cents ◌-ℤ◌ ◌*ℤ◌ round_div
    ◌+ℤ◌
shirt_price = refl
