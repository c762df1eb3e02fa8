-- ===== src/Financials/Strict/Laws.antt =====
-- What a strict invoice is worth.
use store_kiotviet.Base.{
  ℕ, inl, inr, Bool-cases, is_empty-append, ◌≡◌, Bool, true, false, Option, none, some, List, [],
  ◌∷◌, map, arith, ok, >>=-eq-ok, ok-injective, is_empty, is_empty-concat, is_empty→eq, All, subst,
  sym, ap,
}
use store_kiotviet.Base.Int.{ℤ, pos, ◌+ℤ◌, ◌≤ℤ◌, ltb_ℤ, eq_of_parts}
use store_kiotviet.Text.{Text, normalize_sku}
use store_kiotviet.Text.Laws.{text_eq_sound}
use store_kiotviet.Shopify.{Order, OrderSettings, Refund}
use store_kiotviet.Money.{to_cents, sum_cents}
use store_kiotviet.Lines.{ExcludedFeeLine, line_discount_cents, shipping_charged_cents}
use store_kiotviet.Prepare.{PreparedOrder, ValidatedLine}
use store_kiotviet.Financials.Report.{
  Reason, unsupported_discount, refund_affects_products, refund_amount, reason_if,
  is_invoiceable_status, state_reasons, order_currency, compare_currency, currency_reasons,
  InvoiceFinancials,
}
use store_kiotviet.Financials.Strict.{
  StrictFacts, strict_reasons, strict_verdict, refunded_products, refund_reasons, strict_refunds,
  read_strict_facts, evaluate_strict_financials, strict_lines, shipping_tax_reasons,
}

compare_currency_sound :
    (configured : Text) (currency : Option Text)
    → is_empty (compare_currency configured currency) ≡ true
    → currency ≡ some configured
unfolding compare_currency
compare_currency_sound [] currency h = cc
compare_currency_sound (c ∷ configured) none h = cc
compare_currency_sound (c ∷ configured) (some currency) h =
    ap some (text_eq_sound currency (c ∷ configured) (ground arith))

-- What an eligible order satisfies.
pub record IsInvoiceable (order : Order) (prepared : PreparedOrder) (s : OrderSettings)
    (f : StrictFacts) : Type 0 where
  pub not_cancelled : order.cancelled ≡ false
  pub status : is_invoiceable_status order.financial_status ≡ true
  pub currency : order_currency order.currency ≡ some (normalize_sku s.kiot_viet_currency)
  pub no_line_reason : f.line_reasons ≡ []
  pub no_refund_reason : f.refunds ≡ []
  pub balanced : f.merchandise +ℤ f.shipping ≡ prepared.amounts.adjusted_total
  pub refunded_fees_only : f.refunded ≤ℤ prepared.amounts.excluded_fee_total

strict_reasons-IsInvoiceable :
    (order : Order) (prepared : PreparedOrder) (s : OrderSettings) (f : StrictFacts)
    → is_empty (strict_reasons order prepared s f) ≡ true
    → IsInvoiceable order prepared s f
unfolding strict_reasons state_reasons currency_reasons
strict_reasons-IsInvoiceable order prepared s f h =
    let (a, (b, (c, (_, (_, (_, (i, (_, (k, (l, _)))))))))) = is_empty-concat _ h in
    record {
      not_cancelled = ground arith;
      status = ground arith;
      currency = compare_currency_sound (normalize_sku s.kiot_viet_currency) _ b;
      no_line_reason = is_empty→eq f.line_reasons c;
      no_refund_reason = is_empty→eq f.refunds k;
      balanced = eq_of_parts _ _ (ground arith);
      refunded_fees_only = ground arith;
    }

-- A refund that touches no product unit.
abbrev pub KeepsProducts : List ℕ → Refund → Type 0
KeepsProducts fee_ids r = refunded_products fee_ids r ≡ []

refund_reasons-KeepsProducts :
    (fee_ids : List ℕ) (r : Refund) (amount : ℤ)
    → is_empty (refund_reasons fee_ids r amount) ≡ true
    → is_empty (refunded_products fee_ids r) ≡ true
unfolding refund_reasons
refund_reasons-KeepsProducts fee_ids r amount h =
    elim (Bool-cases (is_empty (refunded_products fee_ids r))) [
      | inl e ↦ e
      | inr e ↦ let f : is_empty (refund_affects_products r.id ∷ []) ≡ true = rw e at h in cc
    ]

strict_refunds-KeepsProducts :
    (fee_ids : List ℕ) (rs : List Refund) (total : ℤ) (reasons : List Reason)
    → strict_refunds fee_ids rs ≡ ok (total, reasons)
    → is_empty reasons ≡ true
    → All (KeepsProducts fee_ids) rs
unfolding strict_refunds
strict_refunds-KeepsProducts fee_ids [] total reasons e h = tt
strict_refunds-KeepsProducts fee_ids (r ∷ rest) total reasons e h =
    let (amount, _, e1) = >>=-eq-ok (refund_amount r.transactions) _ e in
    let ((t, later), e2, e3) = >>=-eq-ok (strict_refunds fee_ids rest) _ e1 in
    let q = is_empty-append (refund_reasons fee_ids r amount) later (
      subst (λ (xs : List Reason). is_empty xs ≡ true)
        (sym (ap (λ (p : ℤ × List Reason). p.1) (ok-injective e3))) h) in
    (
      is_empty→eq _ (refund_reasons-KeepsProducts fee_ids r amount q.0),
      strict_refunds-KeepsProducts fee_ids rest t later e2 q.1,
    )

-- No line of the invoice was discounted.
abbrev pub IsUndiscounted : ValidatedLine → Type 0
IsUndiscounted l = (d : ℤ) × (line_discount_cents l.line ≡ ok d) × (d ≤ℤ pos 0)

undiscounted : (d : ℤ) (x : Reason) → is_empty (reason_if (ltb_ℤ (pos 0) d) x) ≡ true → d ≤ℤ pos 0
undiscounted d x h = ground arith

strict_lines-IsUndiscounted :
    (included : Bool) (lines : List ValidatedLine) (total : ℤ) (reasons : List Reason)
    → strict_lines included lines ≡ ok (total, reasons)
    → is_empty reasons ≡ true
    → All IsUndiscounted lines
unfolding strict_lines
strict_lines-IsUndiscounted included [] total reasons e h = tt
strict_lines-IsUndiscounted included (l ∷ rest) total reasons e h =
    let (price, _, e1) = >>=-eq-ok (to_cents l.line.price) _ e in
    let (discount, d, e2) = >>=-eq-ok (line_discount_cents l.line) _ e1 in
    let (tax, _, e3) = >>=-eq-ok (sum_cents l.line.tax_lines) _ e2 in
    let ((t, later), e4, e5) = >>=-eq-ok (strict_lines included rest) _ e3 in
    let q = is_empty-append _ later (
      subst (λ (xs : List Reason). is_empty xs ≡ true)
        (sym (ap (λ (p : ℤ × List Reason). p.1) (ok-injective e5))) h) in
    let u =
      is_empty-append (reason_if (ltb_ℤ (pos 0) discount) (unsupported_discount l.line.id)) _ q.0 in
    (
      (discount, d, undiscounted discount _ u.0),
      strict_lines-IsUndiscounted included rest t later e4 q.1,
    )

-- What a strict invoice stands on: the amount is Shopify's total less the excluded processing
-- fees, in the configured currency; nothing but those fees was refunded, and no line is discounted.
pub record IsExact (order : Order) (prepared : PreparedOrder) (s : OrderSettings)
    (r : InvoiceFinancials) : Type 0 where
  pub payment : r.expected_payment ≡ prepared.amounts.adjusted_total
  pub refunded : r.refunded_total ≤ℤ prepared.amounts.excluded_fee_total
  pub currency : order_currency order.currency ≡ some (normalize_sku s.kiot_viet_currency)
  pub not_cancelled : order.cancelled ≡ false
  pub products_kept :
      All (KeepsProducts (map (λ (fee : ExcludedFeeLine). fee.line.id) prepared.fees)) order.refunds
  pub undiscounted : All IsUndiscounted prepared.lines

abbrev Read : Order → PreparedOrder → StrictFacts → Type 0
Read order prepared f =
    is_empty f.line_reasons ≡ true
    → is_empty f.refunds ≡ true
    → All IsUndiscounted prepared.lines
      × All (KeepsProducts (map (λ (fee : ExcludedFeeLine). fee.line.id) prepared.fees))
          order.refunds

read_strict_facts-Read :
    (order : Order) (prepared : PreparedOrder) (f : StrictFacts)
    → read_strict_facts order prepared ≡ ok f
    → Read order prepared f
unfolding read_strict_facts
read_strict_facts-Read order prepared f e =
    let ((m, reasons), e1, f1) = >>=-eq-ok (strict_lines order.taxes_included prepared.lines) _ e in
    let (_, _, f2) = >>=-eq-ok (shipping_charged_cents order.shipping_lines) _ f1 in
    let (_, _, f3) =
      >>=-eq-ok (shipping_tax_reasons order.taxes_included order.shipping_lines) _ f2 in
    let (_, _, f4) = >>=-eq-ok (to_cents order.total_tip_received) _ f3 in
    let ((t, refunds), e2, f5) =
      >>=-eq-ok
        (strict_refunds (map (λ (fee : ExcludedFeeLine). fee.line.id) prepared.fees) order.refunds)
        _ f4 in
    subst (Read order prepared) (ok-injective f5) (λ h k. (
      strict_lines-IsUndiscounted order.taxes_included prepared.lines m reasons e1 h,
      strict_refunds-KeepsProducts _ order.refunds t refunds e2 k,
    ))

exact :
    (order : Order) (prepared : PreparedOrder) (s : OrderSettings) (f : StrictFacts)
    → Read order prepared f
    → IsInvoiceable order prepared s f
    → IsExact order prepared s (strict_verdict order prepared s f)
unfolding strict_verdict
exact order prepared s f read i =
    let parts = read (rw i.no_line_reason) (rw i.no_refund_reason) in
    record {
      payment = i.balanced;
      refunded = i.refunded_fees_only;
      currency = i.currency;
      not_cancelled = i.not_cancelled;
      products_kept = parts.1;
      undiscounted = parts.0;
    }

-- An eligible strict verdict is exact: the expected payment is Shopify's total less the excluded
-- fees, the refunds are within those fees and take no product unit, the currency is the configured
-- one, the order is not cancelled and no line is discounted.
pub evaluate_strict_sound :
    (order : Order) (prepared : PreparedOrder) (s : OrderSettings) (r : InvoiceFinancials)
    → evaluate_strict_financials order prepared s ≡ ok r
    → r.eligible ≡ true
    → IsExact order prepared s r
unfolding evaluate_strict_financials
evaluate_strict_sound order prepared s r e eligible =
    let (f, read, done) = >>=-eq-ok (read_strict_facts order prepared) _ e in
    let q : strict_verdict order prepared s f ≡ r = ok-injective done in
    subst (IsExact order prepared s) q (
      exact order prepared s f (read_strict_facts-Read order prepared f read) (
        strict_reasons-IsInvoiceable order prepared s f
          (subst (λ (x : InvoiceFinancials). x.eligible ≡ true) (sym q) eligible)))
