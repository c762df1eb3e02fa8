-- ===== src/Financials/ProductOnly/Accounting.antt =====
-- What an eligible Product-Only invoice is worth, and how its differences add up.
use store_kiotviet.Base.{
  ◌≡◌, refl, inl, inr, ◌⊎◌, Bool, true, false, ◌&&◌, not, some, List, [], ◌∷◌, ◌++◌, arith,
  if◌then◌else◌, concat, is_empty-concat, Bool-cases,
}
use store_kiotviet.Base.Int.{ℤ, pos, negsuc, ◌+ℤ◌, ◌-ℤ◌, ◌≤ℤ◌, ltb_ℤ, int_laws}
use store_kiotviet.Shopify.{Order, OrderSettings}
use store_kiotviet.ProductOnly.{ProductOnlyPolicy}
use store_kiotviet.ProductOnly.Refunds.{RefundAdjustments}
use store_kiotviet.Financials.Report.{
  cancelled_refund_allocation_difference, shopify_paid_vs_invoice, DifferenceCode,
  FinancialDifference, InvoiceFinancials,
}
use store_kiotviet.Financials.ProductOnly.{
  Charges, cancelled, others, excluded_charges, positive, difference, difference_if, charge_reasons,
  settled_differences, all_differences, product_only_verdict,
}

-- The codes that explain money; the other two compare totals.
abbrev pub explains : DifferenceCode → Bool
explains cancelled_refund_allocation_difference = false
explains shopify_paid_vs_invoice = false
explains _ = true

abbrev pub counts_if : Bool → ℤ → ℤ
counts_if b x = if b then x else pos 0

abbrev pub total_explained : List FinancialDifference → ℤ
total_explained [] = pos 0
total_explained (d ∷ ds) = counts_if (explains d.code) d.amount +ℤ total_explained ds

-- No charge is negative.
pub record IsNonneg (c : Charges) : Type 0 where
  pub product_tax : pos 0 ≤ℤ c.product_tax
  pub shipping : pos 0 ≤ℤ c.shipping +ℤ c.shipping_tax
  pub fee : pos 0 ≤ℤ c.fee
  pub tip : pos 0 ≤ℤ c.tip

total_explained-difference :
    (code : DifferenceCode) (x : ℤ)
    → total_explained (difference code x) ≡ counts_if (explains code) x
unfolding ◌+ℤ◌
total_explained-difference code (pos n) = ground arith
total_explained-difference code (negsuc n) = ground arith

total_explained-if :
    (b : Bool) (code : DifferenceCode) (x : ℤ)
    → total_explained (difference_if b code x) ≡ counts_if b (counts_if (explains code) x)
total_explained-if false code x = refl
total_explained-if true code x = total_explained-difference code x

total_explained-append :
    (xs ys : List FinancialDifference)
    → total_explained (xs ++ ys) ≡ total_explained xs +ℤ total_explained ys
total_explained-append [] ys = omega int_laws
total_explained-append (x ∷ xs) ys = rw (total_explained-append xs ys) (omega int_laws)

-- Nothing is charged on top of the products that the policy does not exclude, and the refunds stay
-- within what is not invoiced.
pub record IsSettled (policy : ProductOnlyPolicy) (c : Charges) : Type 0 where
  pub untaxed : c.product_tax ≤ℤ pos 0
  pub shipping : (positive (c.shipping +ℤ c.shipping_tax) && not policy.exclude_shipping) ≡ false
  pub fee : (positive c.fee && not policy.exclude_processing_fees) ≡ false
  pub tip : (positive c.tip && not policy.exclude_other_surcharges) ≡ false
  pub no_deficit : pos 0 ≤ℤ others c
  pub surplus :
      (positive (others c)
        && not (policy.exclude_other_surcharges && policy.ignore_financial_mismatch))
      ≡ false
  pub refunds : ltb_ℤ (excluded_charges c) c.refunded ≡ false

verdict-IsSettled :
    (order : Order) (s : OrderSettings) (policy : ProductOnlyPolicy) (a : RefundAdjustments)
    (c : Charges)
    → (product_only_verdict order s policy a c).eligible ≡ true
    → IsSettled policy c
unfolding product_only_verdict charge_reasons
verdict-IsSettled order s policy a c h =
    let (_, (_, (_, (charges, (_, (_, (refunds, _))))))) = is_empty-concat _ h in
    let (tax, (shipping, (fee, (tip, (other, _))))) = is_empty-concat _ charges in
    record {
      untaxed = ground arith;
      shipping = ground arith;
      fee = ground arith;
      tip = ground arith;
      no_deficit = ground arith;
      surplus = ground arith;
      refunds = ground arith;
    }

-- A category that is charged only where the policy excludes it is recorded in full.
counts_if-excluded :
    (x : ℤ) (flag : Bool)
    → pos 0 ≤ℤ x
    → (positive x && not flag) ≡ false
    → counts_if (positive x && flag) x ≡ x
counts_if-excluded x flag h k = ground arith

counts_if-surplus :
    (x : ℤ) (f g : Bool)
    → pos 0 ≤ℤ x
    → (positive x && not (f && g)) ≡ false
    → counts_if (positive x && f && g) x ≡ x
counts_if-surplus x f g h k = ground arith

total_settled :
    (policy : ProductOnlyPolicy) (c : Charges)
    → IsNonneg c
    → IsSettled policy c
    → total_explained (settled_differences policy c)
      ≡ c.shipping +ℤ c.shipping_tax +ℤ (c.fee +ℤ (c.tip +ℤ (others c +ℤ (pos 0 -ℤ c.refunded))))
unfolding settled_differences concat
total_settled policy c n t =
    simp (total_explained-append, total_explained-if)
      (rw
        (
          counts_if-excluded (c.shipping +ℤ c.shipping_tax) policy.exclude_shipping n.shipping
              t.shipping,
          counts_if-excluded c.fee policy.exclude_processing_fees n.fee t.fee,
          counts_if-excluded c.tip policy.exclude_other_surcharges n.tip t.tip,
          counts_if-surplus (others c) policy.exclude_other_surcharges
              policy.ignore_financial_mismatch t.no_deficit t.surplus,
          t.refunds,
        )
        (omega int_laws))

counts_if-zero : (b : Bool) → counts_if b (pos 0) ≡ pos 0
counts_if-zero true = refl
counts_if-zero false = refl

-- The differences of an eligible order that explain money add up to the whole gap between what
-- Shopify collected and the merchandise on the invoice.
differences_account :
    (policy : ProductOnlyPolicy) (c : Charges)
    → IsNonneg c
    → IsSettled policy c
    → total_explained (all_differences policy c)
      ≡ c.shopify_total -ℤ c.refunded -ℤ c.lines.merchandise
unfolding all_differences concat
differences_account policy c n t =
    simp (total_explained-append, total_explained-if, total_explained-difference)
      (rw
        (
          total_settled policy c n t,
          counts_if-zero (positive (cancelled c) && positive c.refund_subtotal),
        )
        (omega (int_laws, n, t.untaxed)))

refunded_bound :
    (d r : ℤ) → ltb_ℤ (if ltb_ℤ d (pos 0) then pos 0 else d) r ≡ false → (r ≤ℤ d) ⊎ (r ≤ℤ pos 0)
refunded_bound d r h = elim (Bool-cases (ltb_ℤ d (pos 0))) [
  | inl e ↦ inr (ground arith)
  | inr e ↦ inl (ground arith)
]

-- The customer has paid for all that is on the invoice.
merchandise_le_paid :
    (policy : ProductOnlyPolicy) (c : Charges)
    → IsNonneg c
    → pos 0 ≤ℤ cancelled c
    → IsSettled policy c
    → c.lines.merchandise ≤ℤ c.shopify_total -ℤ c.refunded
merchandise_le_paid policy c n k t =
    elim (refunded_bound (c.shopify_total -ℤ (c.lines.merchandise +ℤ c.product_tax)) c.refunded
      t.refunds) [
        | inl h ↦ omega (int_laws, n, h)
        | inr h ↦ omega (int_laws, n, t.no_deficit, k, h)
      ]

module _ (order : Order) (s : OrderSettings) (policy : ProductOnlyPolicy) (a : RefundAdjustments)
    (c : Charges) where
  abbrev verdict : InvoiceFinancials
  verdict = product_only_verdict order s policy a c

  -- With no negative charge and no cancelled unit of negative worth, an eligible Product-Only
  -- order's invoice is no more than what Shopify collected.
  pub product_only_paid :
      IsNonneg c
      → pos 0 ≤ℤ cancelled c
      → verdict.eligible ≡ true
      → (paid : ℤ) × (verdict.shopify_paid_total ≡ some paid) × (verdict.expected_payment ≤ℤ paid)
  unfolding product_only_verdict
  product_only_paid n k h = (
    c.shopify_total -ℤ c.refunded,
    refl,
    merchandise_le_paid policy c n k (verdict-IsSettled order s policy a c h),
  )

  -- With no negative charge, the recorded differences of an eligible Product-Only order that
  -- explain money add up to what Shopify collected beyond the invoice.
  pub product_only_differences :
      IsNonneg c
      → verdict.eligible ≡ true
      → (paid : ℤ) × (verdict.shopify_paid_total ≡ some paid)
        × (total_explained verdict.differences ≡ paid -ℤ verdict.expected_payment)
  unfolding product_only_verdict
  product_only_differences n h = (
    c.shopify_total -ℤ c.refunded,
    refl,
    differences_account policy c n (verdict-IsSettled order s policy a c h),
  )
