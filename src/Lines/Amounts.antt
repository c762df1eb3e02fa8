-- ===== src/Lines/Amounts.antt =====
-- What partitioning an order into purchased lines and processing fees keeps of its amounts.
use store_kiotviet.Base.{
  ◌≡◌, refl, Bool, ◌&&◌, true, not, Option, none, some, List, [], ◌∷◌, map, arith, ok, >>=-eq-ok,
  ok-injective, AppError, is_some, keep_if, subst, sym, ap, throw_if,
}
use store_kiotviet.Base.Int.{ℤ, pos, ◌+ℤ◌, ◌-ℤ◌, ◌≤ℤ◌, ltb_ℤ, leb_ℤ, int_laws, eq_of_parts}
use store_kiotviet.Money.{to_cents}
use store_kiotviet.Shopify.{LineItem, Order, OrderSettings}
use store_kiotviet.Lines.{
  processing_fee_reason, ExcludedFeeLine, Partition, partition_lines, partition_order_lines,
  file_line, line_charged_cents, fee_cents, charged_total, shipping_total, OrderAmounts,
  compute_order_amounts,
}

-- A partition of these lines: every line is purchased or a fee, and what the lines are charged is
-- what the purchased ones and the fees are charged.
pub record IsPartition (included : Bool) (s : OrderSettings) (lines : List LineItem) (p : Partition)
    : Type 0 where
  pub purchased : p.purchased ≡ keep_if (λ l. not (is_some (processing_fee_reason l s))) lines
  pub fees :
      map (λ (f : ExcludedFeeLine). f.line) p.fees
      ≡ keep_if (λ l. is_some (processing_fee_reason l s)) lines
  pub charged :
      (c : ℤ)
      → charged_total included p.purchased ≡ ok c
      → charged_total included lines ≡ ok (c +ℤ fee_cents p.fees)

file_line-IsPartition :
    (included : Bool) (s : OrderSettings) (line : LineItem) (lines : List LineItem)
    (q p : Partition) (r : Option _)
    → processing_fee_reason line s ≡ r
    → IsPartition included s lines q
    → file_line line r included q ≡ ok p
    → IsPartition included s (line ∷ lines) p
unfolding charged_total
file_line-IsPartition included s line lines q p none e i h =
    subst (IsPartition included s (line ∷ lines)) (ok-injective h) (record {
      purchased = rw e (ap (λ xs. line ∷ xs) i.purchased);
      fees = rw e i.fees;
      charged = λ c k.
          let (x, ex, k1) = >>=-eq-ok (line_charged_cents line included) _ k in
          let (t, et, k2) = >>=-eq-ok (charged_total included q.purchased) _ k1 in
          rw (ex, i.charged t et, sym (ok-injective k2)) (ap ok (eq_of_parts _ _ (omega int_laws)));
    })
file_line-IsPartition included s line lines q p (some w) e i h =
    let (x, ex, e1) = >>=-eq-ok (line_charged_cents line included) _ h in
    subst (IsPartition included s (line ∷ lines)) (ok-injective e1) (record {
      purchased = rw e i.purchased;
      fees = rw e (ap (λ xs. line ∷ xs) i.fees);
      charged = λ c k. rw (ex, i.charged c k) (ap ok (eq_of_parts _ _ (omega int_laws)));
    })

partition_lines-IsPartition :
    (included : Bool) (s : OrderSettings) (lines : List LineItem) (p : Partition)
    → partition_lines included s lines ≡ ok p
    → IsPartition included s lines p
unfolding partition_lines charged_total
partition_lines-IsPartition included s [] p h =
    subst (IsPartition included s []) (ok-injective h) (record {
      purchased = refl;
      fees = refl;
      charged = λ c k. rw (sym (ok-injective k)) (ap ok (eq_of_parts _ _ (omega int_laws)));
    })
partition_lines-IsPartition included s (line ∷ rest) p h =
    let (q, e1, e2) = >>=-eq-ok (partition_lines included s rest) _ h in
    file_line-IsPartition included s line rest q p _ refl
      (partition_lines-IsPartition included s rest q e1) e2

-- The purchased lines are, in order, those without a fee reason and the fees those with one, and
-- whenever the purchased lines have a charge, the charge of all lines is that of the purchased ones
-- and the fees.
pub partition_order_lines-IsPartition :
    (order : Order) (s : OrderSettings) (p : Partition)
    → partition_order_lines order s ≡ ok p
    → IsPartition order.taxes_included s order.line_items p
unfolding partition_order_lines
partition_order_lines-IsPartition order s p =
    partition_lines-IsPartition order.taxes_included s order.line_items p

-- The amounts of an order: Shopify's total splits into the fees and an adjusted rest that is not
-- negative, and consistent amounts explain the total by the lines, the shipping and the tip.
pub record IsBalanced (order : Order) (a : OrderAmounts) : Type 0 where
  pub total : to_cents order.total_price ≡ ok a.shopify_total
  pub split : a.adjusted_total +ℤ a.excluded_fee_total ≡ a.shopify_total
  pub nonneg : pos 0 ≤ℤ a.adjusted_total
  pub explained :
      a.consistent ≡ true
      → (c ship tip : ℤ) × (charged_total order.taxes_included order.line_items ≡ ok c)
        × (shipping_total order.taxes_included order.shipping_lines ≡ ok ship)
        × (to_cents order.total_tip_received ≡ ok tip)
        × (c +ℤ ship +ℤ tip ≡ a.shopify_total)

not_thrown :
    (x : ℤ) {u : Unit {0}} → throw_if (ltb_ℤ x (pos 0)) AppError.validation ≡ ok u → pos 0 ≤ℤ x
not_thrown x h = ground arith

both_ways : (x y : ℤ) → (leb_ℤ x y && leb_ℤ y x) ≡ true → (x ≤ℤ y) × (y ≤ℤ x)
both_ways x y h = ground arith

explain :
    (c fees ship tip total : ℤ)
    → (leb_ℤ (c +ℤ ship +ℤ tip) (total -ℤ fees) && leb_ℤ (total -ℤ fees) (c +ℤ ship +ℤ tip)) ≡ true
    → c +ℤ fees +ℤ ship +ℤ tip ≡ total
explain c fees ship tip total h =
    eq_of_parts _ _ (omega (int_laws, both_ways (c +ℤ ship +ℤ tip) (total -ℤ fees) h))

-- Partitioning an order and computing its amounts from the parts: Shopify's total splits into the
-- fees and an adjusted rest that is not negative, and consistent amounts explain the total by all
-- lines, the shipping and the tip.
pub compute_order_amounts-IsBalanced :
    (order : Order) (s : OrderSettings) (p : Partition) (a : OrderAmounts)
    → partition_order_lines order s ≡ ok p
    → compute_order_amounts order p.purchased p.fees ≡ ok a
    → IsBalanced order a
unfolding compute_order_amounts
compute_order_amounts-IsBalanced order s p a parted h =
    let i = partition_order_lines-IsPartition order s p parted in
    let (total, e0, h0) = >>=-eq-ok (to_cents order.total_price) _ h in
    let (_, guard, h1) =
      >>=-eq-ok (throw_if (ltb_ℤ (total -ℤ fee_cents p.fees) (pos 0)) AppError.validation) _ h0 in
    let (ship, e1, h2) =
      >>=-eq-ok (shipping_total order.taxes_included order.shipping_lines) _ h1 in
    let (c, e2, h3) = >>=-eq-ok (charged_total order.taxes_included p.purchased) _ h2 in
    let (tip, e3, h4) = >>=-eq-ok (to_cents order.total_tip_received) _ h3 in
    subst (IsBalanced order) (ok-injective h4) (record {
      total = e0;
      split = eq_of_parts _ _ (omega int_laws);
      nonneg = not_thrown (total -ℤ fee_cents p.fees) guard;
      explained = λ k. (
        c +ℤ fee_cents p.fees,
        ship,
        tip,
        i.charged c e2,
        e1,
        e3,
        explain c (fee_cents p.fees) ship tip total k,
      );
    })
