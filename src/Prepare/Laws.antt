-- ===== src/Prepare/Laws.antt =====
-- What a prepared order holds: the lines that are sent to KiotViet.
use store_kiotviet.Base.{
  ◌<◌, ◌≡◌, refl, true, false, not, ◌||◌, Option, none, some, List, [], ◌∷◌, map, arith, ok,
  AppError, >>=-eq-ok, ok-injective, is_some, is_empty, map_result, throw_if, unthrown, All, subst,
  if◌then◌else◌, ltb, inl, inr, Bool-cases, ◌==◌,
}
use store_kiotviet.Base.Int.{ℤ, pos, ◌≤ℤ◌}
use store_kiotviet.Text.{normalize_sku}
use store_kiotviet.Money.{Amount}
use store_kiotviet.Shopify.{LineItem, Order, OrderSettings}
use store_kiotviet.Lines.{partition_order_lines, compute_order_amounts}
use store_kiotviet.ProductOnly.{product_only_policy}
use store_kiotviet.ProductOnly.Refunds.{RefundAdjustments}
use store_kiotviet.Prepare.{
  ValidatedLine, PreparedOrder, remaining, read_price, validate_line, adjust_if_enabled, sent_lines,
  prepare_order_for_kiot_viet,
}

-- What KiotViet is sent of a line: it has a normalised SKU, at least one unit and a price that is
-- not negative.
pub record IsSendable (l : ValidatedLine) : Type 0 where
  pub named : is_empty l.sku ≡ false
  pub normalised : l.sku ≡ normalize_sku l.line.sku
  pub some_units : 0 < l.quantity
  pub priced : pos 0 ≤ℤ l.price

read_price_nonneg : (a : Amount) (n : ℤ) → read_price a ≡ ok n → pos 0 ≤ℤ n
unfolding read_price
read_price_nonneg a n h = ground arith

-- The lines that keep_if leaves are those for which the quantity is not zero.
abbrev HasUnits : Option RefundAdjustments → LineItem → Type 0
HasUnits adjustments line = (not (is_some adjustments) || ltb 0 (remaining adjustments line)) ≡ true

units_left :
    (adjustments : Option RefundAdjustments) (line : LineItem)
    → HasUnits adjustments line
    → (line.quantity == 0) ≡ false
    → 0 < (if is_some adjustments then remaining adjustments line else line.quantity)
units_left none line h k = ground arith
units_left (some r) line h k = ground arith

validate_line-IsSendable :
    (adjustments : Option RefundAdjustments) (line : LineItem) (l : ValidatedLine)
    → HasUnits adjustments line
    → validate_line adjustments line ≡ ok l
    → IsSendable l
unfolding validate_line
validate_line-IsSendable adjustments line l units h =
    let (_, g1, h1) =
      >>=-eq-ok (throw_if (is_empty (normalize_sku line.sku)) AppError.mapping) _ h in
    let (_, g2, h2) = >>=-eq-ok (throw_if (line.quantity == 0) AppError.validation) _ h1 in
    let (price, e3, h3) = >>=-eq-ok (read_price line.price) _ h2 in
    subst IsSendable (ok-injective h3) (record {
      named = unthrown _ _ g1;
      normalised = refl;
      some_units = units_left adjustments line units (unthrown _ _ g2);
      priced = read_price_nonneg line.price price e3;
    })

validate_lines-IsSendable :
    (adjustments : Option RefundAdjustments) (lines : List LineItem) (ls : List ValidatedLine)
    → map_result (validate_line adjustments) (sent_lines adjustments lines) ≡ ok ls
    → All IsSendable ls
unfolding sent_lines
validate_lines-IsSendable adjustments [] ls h = subst (All IsSendable) (ok-injective h) tt
validate_lines-IsSendable adjustments (line ∷ rest) ls h =
    elim (Bool-cases (not (is_some adjustments) || ltb 0 (remaining adjustments line))) [
      | inl e ↦
          let k : map_result (validate_line adjustments) (line ∷ sent_lines adjustments rest)
              ≡ ok ls =
            rw e at h in
          let (l, e1, k1) = >>=-eq-ok (validate_line adjustments line) _ k in
          let (later, e2, k2) =
            >>=-eq-ok (map_result (validate_line adjustments) (sent_lines adjustments rest)) _ k1 in
          subst (All IsSendable) (ok-injective k2) (
            validate_line-IsSendable adjustments line l e e1,
            validate_lines-IsSendable adjustments rest later e2,
          )
      | inr e ↦ validate_lines-IsSendable adjustments rest ls (rw e at h)
    ]

-- Every line of a prepared order has a non-empty normalised SKU, at least one unit and a price that
-- is not negative.
pub prepare_order_for_kiot_viet-IsSendable :
    (order : Order) (s : OrderSettings) (p : PreparedOrder)
    → prepare_order_for_kiot_viet order s ≡ ok p
    → All IsSendable p.lines
unfolding prepare_order_for_kiot_viet
prepare_order_for_kiot_viet-IsSendable order s p h =
    let (_, _, h1) = >>=-eq-ok (throw_if (is_empty order.line_items) AppError.validation) _ h in
    let (parted, _, h2) = >>=-eq-ok (partition_order_lines order s) _ h1 in
    let (a, _, h3) =
      >>=-eq-ok (adjust_if_enabled (product_only_policy s) order parted.purchased) _ h2 in
    let (ls, e, h4) =
      >>=-eq-ok (map_result (validate_line a) (sent_lines a parted.purchased)) _ h3 in
    let (_, _, h5) =
      >>=-eq-ok
        (compute_order_amounts order
          (if is_some a then parted.purchased else map (λ (l : ValidatedLine). l.line) ls)
          parted.fees)
        _ h4 in
    subst (λ (x : PreparedOrder). All IsSendable x.lines) (ok-injective h5)
      (validate_lines-IsSendable a parted.purchased ls e)
