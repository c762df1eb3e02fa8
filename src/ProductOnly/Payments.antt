-- ===== src/ProductOnly/Payments.antt =====
-- The unit price and the payment decision of Product-Only invoicing.
use native.Mathlib.Nat.{div-add-mod'}
use store_kiotviet.Base.{
  ℕ, ◌≡◌, sym, ◌≢◌, ◌↔◌, Bool, true, ◌||◌, some, arith, ok, >>=-eq-ok, ok-injective, ◌%◌, ◌/◌,
  if◌then◌else◌,
}
use store_kiotviet.Base.Int.{ℤ, pos, negsuc, ◌-ℤ◌, ◌*ℤ◌, *ℤ_parts, eq_of_parts}
use store_kiotviet.Money.{to_cents}
use store_kiotviet.Shopify.{LineItem}
use store_kiotviet.Lines.{line_discount_cents}
use store_kiotviet.ProductOnly.{
  split_evenly, discounted_unit_price_cents, safe, verified, unverified_accepted, PrepaymentPolicy,
  product_only_payment_decision,
}

divides :
    (n quantity : ℕ) (unit : ℤ)
    → split_evenly (pos n) quantity ≡ some unit
    → (n % quantity ≡ 0) × (pos (n / quantity) ≡ unit)
unfolding split_evenly
divides n quantity unit h = ground arith

split_evenly_exact :
    (n : ℤ) (quantity : ℕ) (unit : ℤ) → split_evenly n quantity ≡ some unit → unit *ℤ quantity ≡ n
unfolding split_evenly
split_evenly_exact (negsuc n) quantity unit h = cc
split_evenly_exact (pos n) quantity unit h =
    let (r, q) = divides n quantity unit h in
    rw (sym q) (
      eq_of_parts (pos (n / quantity) *ℤ quantity) (pos n)
        (omega (arith, *ℤ_parts (pos (n / quantity)) quantity, div-add-mod' n quantity, r)))

-- A discounted unit price times the quantity is exactly the price of the line less its discount.
pub discounted_unit_price_cents_exact :
    (line : LineItem) (quantity : ℕ) (unit : ℤ)
    → discounted_unit_price_cents line quantity ≡ ok (some unit)
    → (price discount : ℤ) × (to_cents line.price ≡ ok price)
      × (line_discount_cents line ≡ ok discount)
      × (unit *ℤ quantity ≡ price *ℤ quantity -ℤ discount)
unfolding discounted_unit_price_cents
discounted_unit_price_cents_exact line quantity unit h =
    let (price, e1, h1) = >>=-eq-ok (to_cents line.price) _ h in
    let (discount, e2, h2) = >>=-eq-ok (line_discount_cents line) _ h1 in
    (price, discount, e1, e2, split_evenly_exact _ quantity unit (ok-injective h2))

-- An invoice without a payment of its own is safe exactly when the prepayment is not zero and is
-- the invoice total, and its inheritance is verified or expressly allowed; it is then the
-- prepayment that the invoice must come to have.
pub product_only_payment_decision_safe :
    (prepaid total amount : ℤ) (inherited allowed : Bool) (policy : PrepaymentPolicy)
    → (product_only_payment_decision prepaid total inherited allowed ≡ safe amount policy) ↔ (
        (prepaid ≢ pos 0)
        × (prepaid ≡ total)
        × ((inherited || allowed) ≡ true)
        × (amount ≡ prepaid)
        × (policy ≡ (if inherited then verified else unverified_accepted)))
unfolding product_only_payment_decision
product_only_payment_decision_safe prepaid total amount inherited allowed policy =
    ground (arith, eq_of_parts prepaid total)
