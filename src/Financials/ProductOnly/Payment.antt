-- ===== src/Financials/ProductOnly/Payment.antt =====
-- The payment sent with the KiotViet order against the merchandise of its invoice, Product-Only.
use store_kiotviet.Base.{
  ◌>>=◌, ℕ, ◌≡◌, refl, sym, ◌∙◌, Bool, true, false, Option, none, some, List, [], ◌∷◌, map, arith,
  Result, ok, AppError, >>=-eq-ok, ok-injective, is_some, is_empty, map_result, throw_if, subst, ap,
  if◌then◌else◌, ltb, inl, inr, Bool-cases, ◌==◌,
}
use store_kiotviet.Base.Int.{ℤ, pos, negsuc, ◌+ℤ◌, ◌-ℤ◌, ◌*ℤ◌, round_div, floor_div}
use store_kiotviet.Text.{normalize_sku}
use store_kiotviet.Money.{Amount, absent, unreadable, decimal, to_cents, sum_cents}
use store_kiotviet.Shopify.{LineItem, Order, OrderSettings}
use store_kiotviet.Lines.{
  line_discount_cents, shipping_charged_cents, partition_order_lines, compute_order_amounts,
}
use store_kiotviet.ProductOnly.{
  ProductOnlyPolicy, product_only_policy, means_not_shipped, discounted_unit_price_cents,
}
use store_kiotviet.ProductOnly.Refunds.{RefundAdjustments, compute_refund_adjustments}
use store_kiotviet.Prepare.{
  ValidatedLine, PreparedOrder, remaining, read_price, validate_line, adjust_if_enabled, sent_lines,
  paid_for_line, merchandise_paid_cents, prepare_order_for_kiot_viet, is_paid,
  planned_order_payment,
}
use store_kiotviet.Financials.{evaluate_invoice_financials}
use store_kiotviet.Financials.Strict.{evaluate_strict_financials}
use store_kiotviet.Financials.Report.{InvoiceFinancials}
use store_kiotviet.Financials.ProductOnly.{
  LineTotals, Charges, add_units, add_line, product_lines, read_charges, count_refunds,
  added_shipping_tax, lines_or, adjustments_or, evaluate_product_only_financials,
  product_only_verdict,
}

-- What the units of a line come to, by its discounted unit price or prorated.
abbrev units_cents : LineItem → ℕ → ℤ → Option ℤ → ℤ
units_cents line units net (some unit) = unit *ℤ units
units_cents line units net none = round_div (net *ℤ units) line.quantity

add_line_no_units :
    (line : LineItem) (units : ℕ) (net tax : ℤ) (u : Option ℤ) (t : LineTotals)
    → ltb 0 units ≡ false
    → (add_line line units net tax u t).merchandise ≡ t.merchandise
unfolding add_line add_units
add_line_no_units line units net tax u t h = ground arith

add_line_units :
    (line : LineItem) (units : ℕ) (net tax : ℤ) (u : Option ℤ) (t : LineTotals)
    → ltb 0 units ≡ true
    → (add_line line units net tax u t).merchandise ≡ units_cents line units net u +ℤ t.merchandise
unfolding add_line add_units
add_line_units line units net tax none t h = ground arith
add_line_units line units net tax (some unit) t h = ground arith

to_cents-read_price : (a : Amount) (n : ℤ) → read_price a ≡ ok n → to_cents a ≡ ok (round_div n 100)
unfolding read_price to_cents round_div floor_div ◌+ℤ◌ ◌*ℤ◌
to_cents-read_price absent n h =
    subst (λ m. to_cents absent ≡ ok (round_div m 100)) (ok-injective h) refl
to_cents-read_price unreadable n h = cc
to_cents-read_price (decimal (pos k)) n h = ap (λ m. ok (round_div m 100)) (ok-injective h)
to_cents-read_price (decimal (negsuc k)) n h = cc

same_value {ℓ} : {A : Type ℓ} {m : Result A} {a b : A} → m ≡ ok a → m ≡ ok b → a ≡ b
same_value h k = ok-injective (sym h ∙ k)

taken {ℓ} : {A : Type ℓ} (b : Bool) (x y : A) {z : A} → b ≡ true → (if b then x else y) ≡ z → x ≡ z
taken true x y e h = h
taken false x y e h = cc

-- What a sent line was read from.
record IsRead (a : RefundAdjustments) (line : LineItem) (l : ValidatedLine) : Type 0 where
  item : l.line ≡ line
  units : l.quantity ≡ remaining (some a) line
  price : to_cents line.price ≡ ok (round_div l.price 100)

validate_line-IsRead :
    (a : RefundAdjustments) (line : LineItem) (l : ValidatedLine)
    → validate_line (some a) line ≡ ok l
    → IsRead a line l
unfolding validate_line
validate_line-IsRead a line l h =
    let (_, _, h1) =
      >>=-eq-ok (throw_if (is_empty (normalize_sku line.sku)) AppError.mapping) _ h in
    let (_, _, h2) = >>=-eq-ok (throw_if (line.quantity == 0) AppError.validation) _ h1 in
    let (price, e3, h3) = >>=-eq-ok (read_price line.price) _ h2 in
    subst (IsRead a line) (ok-injective h3)
      (record { item = refl; units = refl; price = to_cents-read_price line.price price e3 })

paid_for_line-units :
    (a : RefundAdjustments) (line : LineItem) (l : ValidatedLine) (u : Option ℤ)
    (price discount c : ℤ)
    → IsRead a line l
    → to_cents line.price ≡ ok price
    → line_discount_cents line ≡ ok discount
    → paid_for_line l u ≡ ok c
    → units_cents line (remaining (some a) line) (price *ℤ line.quantity -ℤ discount) u ≡ c
unfolding paid_for_line
paid_for_line-units a line l (some unit) price discount c r p d h =
    rw (sym r.units) (ok-injective h)
paid_for_line-units a line l none price discount c r p d h =
    let (d', e, h1) = >>=-eq-ok (line_discount_cents l.line) _ h in
    let same_discount : discount ≡ d' =
      same_value d (subst (λ x. line_discount_cents x ≡ ok d') r.item e) in
    rw (same_value p r.price, same_discount, sym r.units, sym r.item) (ok-injective h1)

paid_for_cons :
    (a : RefundAdjustments) (line : LineItem) (l : ValidatedLine) (ls : List ValidatedLine)
    (unit : Option ℤ) (price discount m later : ℤ)
    → IsRead a line l
    → to_cents line.price ≡ ok price
    → line_discount_cents line ≡ ok discount
    → discounted_unit_price_cents line line.quantity ≡ ok unit
    → ((total : ℤ) → merchandise_paid_cents ls ≡ ok total → later ≡ total)
    → merchandise_paid_cents (l ∷ ls) ≡ ok m
    → units_cents line (remaining (some a) line) (price *ℤ line.quantity -ℤ discount) unit +ℤ later
      ≡ m
unfolding merchandise_paid_cents
paid_for_cons a line l ls unit price discount m later r e1 e2 e4 rest k =
    let (u, f1, k1) = >>=-eq-ok (discounted_unit_price_cents l.line l.line.quantity) _ k in
    let (c, f2, k2) = >>=-eq-ok (paid_for_line l u) _ k1 in
    let (total, f3, k3) = >>=-eq-ok (merchandise_paid_cents ls) _ k2 in
    let same_unit : u ≡ unit =
      same_value
        (subst (λ (x : LineItem). discounted_unit_price_cents x x.quantity ≡ ok u) r.item f1) e4 in
    let paid = subst (λ x. paid_for_line l x ≡ ok c) same_unit f2 in
    rw (paid_for_line-units a line l unit price discount c r e1 e2 paid, rest total f3)
      (ok-injective k3)

-- Both loops over the same product lines.
paid_for_merchandise :
    (a : RefundAdjustments) (lines : List LineItem) (ls : List ValidatedLine) (t : LineTotals)
    (m : ℤ)
    → map_result (validate_line (some a)) (sent_lines (some a) lines) ≡ ok ls
    → product_lines (some a) lines ≡ ok t
    → merchandise_paid_cents ls ≡ ok m
    → t.merchandise ≡ m
unfolding product_lines merchandise_paid_cents sent_lines
paid_for_merchandise a [] ls t m v p k =
    subst (λ (x : LineTotals). x.merchandise ≡ m) (ok-injective p)
      (ok-injective (
        subst (λ (xs : List ValidatedLine). merchandise_paid_cents xs ≡ ok m) (sym (ok-injective v))
          k))
paid_for_merchandise a (line ∷ rest) ls t m v p k =
    let (price, e1, p1) = >>=-eq-ok (to_cents line.price) _ p in
    let (discount, e2, p2) = >>=-eq-ok (line_discount_cents line) _ p1 in
    let (tax, e3, p3) = >>=-eq-ok (sum_cents line.tax_lines) _ p2 in
    let (unit, e4, p4) = >>=-eq-ok (discounted_unit_price_cents line line.quantity) _ p3 in
    let (later, e5, p5) = >>=-eq-ok (product_lines (some a) rest) _ p4 in
    let net = price *ℤ line.quantity -ℤ discount in
    elim (Bool-cases (ltb 0 (remaining (some a) line))) [
      | inl e ↦
          let w : map_result (validate_line (some a)) (line ∷ sent_lines (some a) rest) ≡ ok ls =
            rw e at v in
          let (l, w1, v1) = >>=-eq-ok (validate_line (some a) line) _ w in
          let (others, w2, v2) =
            >>=-eq-ok (map_result (validate_line (some a)) (sent_lines (some a) rest)) _ v1 in
          subst (λ (x : LineTotals). x.merchandise ≡ m) (ok-injective p5)
            (add_line_units line _ net tax unit later e
              ∙ paid_for_cons a line l others unit price discount m later.merchandise
                  (validate_line-IsRead a line l w1) e1 e2 e4
                  (λ total h. paid_for_merchandise a rest others later total w2 e5 h)
                  (subst (λ (xs : List ValidatedLine). merchandise_paid_cents xs ≡ ok m)
                    (sym (ok-injective v2)) k))
      | inr e ↦
          subst (λ (x : LineTotals). x.merchandise ≡ m) (ok-injective p5)
            (add_line_no_units line _ net tax unit later e
              ∙ paid_for_merchandise a rest ls later m (rw e at v) e5 k)
    ]

-- The lines of a prepared order, read from its original lines with its adjustments.
abbrev IsAdjusted : PreparedOrder → RefundAdjustments → List LineItem → Type 0
IsAdjusted p a lines =
    (p.adjustments ≡ some a)
    × (p.original_lines ≡ some lines)
    × (map_result (validate_line (some a)) (sent_lines (some a) lines) ≡ ok p.lines)

adjust_if_enabled_on :
    (policy : ProductOnlyPolicy) (order : Order) (lines : List LineItem)
    (o : Option RefundAdjustments)
    → policy.enabled ≡ true
    → adjust_if_enabled policy order lines ≡ ok o
    → (a : RefundAdjustments) × (o ≡ some a)
unfolding adjust_if_enabled
adjust_if_enabled_on policy order lines o on e =
    let computed =
      compute_refund_adjustments order.refunds order.fulfillments lines
        (means_not_shipped policy.refunded_items_policy) in
    let (a, _, e1) =
      >>=-eq-ok computed _ (taken policy.enabled (computed >>= λ r. ok (some r)) (ok none) on e) in
    (a, sym (ok-injective e1))

prepared-IsAdjusted :
    (order : Order) (s : OrderSettings) (p : PreparedOrder)
    → (product_only_policy s).enabled ≡ true
    → prepare_order_for_kiot_viet order s ≡ ok p
    → (a : RefundAdjustments) × (lines : List LineItem) × IsAdjusted p a lines
unfolding prepare_order_for_kiot_viet
prepared-IsAdjusted order s p on h =
    let (_, _, h1) = >>=-eq-ok (throw_if (is_empty order.line_items) AppError.validation) _ h in
    let (parted, _, h2) = >>=-eq-ok (partition_order_lines order s) _ h1 in
    let (o, e, h3) =
      >>=-eq-ok (adjust_if_enabled (product_only_policy s) order parted.purchased) _ h2 in
    let (a, some_a) = adjust_if_enabled_on (product_only_policy s) order parted.purchased o on e in
    let (ls, e2, h4) =
      >>=-eq-ok (map_result (validate_line o) (sent_lines o parted.purchased)) _ h3 in
    let (_, _, h5) =
      >>=-eq-ok
        (compute_order_amounts order
          (if is_some o then parted.purchased else map (λ (l : ValidatedLine). l.line) ls)
          parted.fees)
        _ h4 in
    subst
      (λ (x : PreparedOrder).
        (b : RefundAdjustments) × (lines : List LineItem) × IsAdjusted x b lines)
      (ok-injective h5)
      (
        a,
        parted.purchased,
        (
          some_a,
          rw some_a,
          subst
              (λ (x : Option RefundAdjustments).
                map_result (validate_line x) (sent_lines x parted.purchased) ≡ ok ls)
              some_a e2,
        ),
      )

expected_is_merchandise :
    (order : Order) (s : OrderSettings) (p : PreparedOrder) (r : InvoiceFinancials)
    (a : RefundAdjustments) (lines : List LineItem)
    → p.adjustments ≡ some a
    → p.original_lines ≡ some lines
    → evaluate_product_only_financials order p s (product_only_policy s) ≡ ok r
    → (t : LineTotals) × (product_lines (some a) lines ≡ ok t)
      × (r.expected_payment ≡ t.merchandise)
unfolding evaluate_product_only_financials read_charges product_only_verdict
expected_is_merchandise order s p r a lines ea el h =
    let (b, e1, h1) =
      >>=-eq-ok
        (adjustments_or p.adjustments order (lines_or p.original_lines p.lines)
          (product_only_policy s))
        _ h in
    let (c, e2, h2) = >>=-eq-ok (read_charges order p (lines_or p.original_lines p.lines) b) _ h1 in
    let (t, e3, k1) = >>=-eq-ok (product_lines (some b) (lines_or p.original_lines p.lines)) _ e2 in
    let (_, _, k2) = >>=-eq-ok (shipping_charged_cents order.shipping_lines) _ k1 in
    let (_, _, k3) =
      >>=-eq-ok (added_shipping_tax order.taxes_included order.shipping_lines) _ k2 in
    let (_, _, k4) = >>=-eq-ok (to_cents order.total_tip_received) _ k3 in
    let (_, _, k5) = >>=-eq-ok (to_cents order.total_price) _ k4 in
    let (_, _, k6) = >>=-eq-ok (count_refunds [] order.refunds) _ k5 in
    let same_a : a ≡ b = ok-injective (rw ea at e1) in
    (
      t,
      subst (λ (x : RefundAdjustments). product_lines (some x) lines ≡ ok t) (sym same_a)
          (subst
            (λ (x : Option (List LineItem)). product_lines (some b) (lines_or x p.lines) ≡ ok t) el
            e3),
      sym (ap (λ (x : InvoiceFinancials). x.expected_payment) (ok-injective h2))
          ∙ sym (ap (λ (x : Charges). x.lines.merchandise) (ok-injective k6)),
    )

-- Under Product-Only, the payment that is sent with the KiotViet order of a paid Shopify order is
-- the expected payment of its invoice, wherever both are computed.
pub planned_payment_is_expected :
    (order : Order) (s : OrderSettings) (p : PreparedOrder) (m : ℤ) (r : InvoiceFinancials)
    → (product_only_policy s).enabled ≡ true
    → is_paid order s ≡ true
    → prepare_order_for_kiot_viet order s ≡ ok p
    → planned_order_payment order p s ≡ ok m
    → evaluate_invoice_financials order p s ≡ ok r
    → r.expected_payment ≡ m
unfolding prepare_order_for_kiot_viet planned_order_payment evaluate_invoice_financials
planned_payment_is_expected order s p m r on paid prepared planned evaluated =
    let (a, lines, (ea, el, read)) = prepared-IsAdjusted order s p on prepared in
    let (t, et, expected) = expected_is_merchandise order s p r a lines ea el (
      taken (product_only_policy s).enabled
        (evaluate_product_only_financials order p s (product_only_policy s))
        (evaluate_strict_financials order p s) on evaluated) in
    expected ∙ paid_for_merchandise a lines p.lines t m read et (rw (paid, on) at planned)
