-- ===== src/ProductOnly/Refunds/Redelivery.antt =====
-- Repeated refund events: what an id that was already counted adds.
use store_kiotviet.Base.{
  ℕ, ◌≡◌, refl, Bool, true, false, ◌||◌, Option, none, some, List, [], ◌∷◌, ◌++◌, arith, Result, ok,
  err, ◌>>=◌, ◌∙◌, >>=-eq-ok, has_id, ◌==◌, any_of,
}
use store_kiotviet.Shopify.{LineItem, Refund, RefundLineItem, Fulfillment}
use store_kiotviet.ProductOnly.Refunds.{
  Collected, collect_item, collect_items, collect_refund, collect_refunds, mark, nothing_collected,
  compute_refund_adjustments,
}

-- The refund has this id.
abbrev pub has_refund_id : ℕ → Refund → Bool
has_refund_id k r = elim r.id [ none ↦ false | some j ↦ k == j ]

collect_item-seen :
    (item : RefundLineItem) (c : Collected) {c' : Collected}
    → collect_item item c ≡ ok c'
    → c'.seen_refunds ≡ c.seen_refunds
unfolding collect_item
collect_item-seen item c e = ground arith

collect_items-seen :
    (items : List RefundLineItem) (c c' : Collected)
    → collect_items items c ≡ ok c'
    → c'.seen_refunds ≡ c.seen_refunds
unfolding collect_items
collect_items-seen [] c c' e = ground arith
collect_items-seen (item ∷ rest) c c' e =
    let (d, e1, e2) = >>=-eq-ok (collect_item item c) (collect_items rest) e in
    collect_items-seen rest d c' e2 ∙ collect_item-seen item c e1

has_id-mark :
    (k : ℕ) (o : Option ℕ) (ids : List ℕ) → has_id k ids ≡ true → has_id k (mark o ids) ≡ true
has_id-mark k none ids h = h
has_id-mark k (some j) ids h = ground arith

-- An id stays counted, and the id of a refund that was read is counted.
collect_refund-seen :
    (k : ℕ) (r : Refund) (c : Collected) {c' : Collected}
    → collect_refund r c ≡ ok c'
    → (has_refund_id k r || has_id k c.seen_refunds) ≡ true
    → has_id k c'.seen_refunds ≡ true
unfolding collect_refund
collect_refund-seen k r c {c'} e h = ground (
  arith,
  collect_items-seen r.refund_line_items (record c { seen_refunds = mark r.id c.seen_refunds }) c',
)

collect_refunds-seen :
    (k : ℕ) (rs : List Refund) (c : Collected) {c' : Collected}
    → collect_refunds rs c ≡ ok c'
    → (any_of (has_refund_id k) rs || has_id k c.seen_refunds) ≡ true
    → has_id k c'.seen_refunds ≡ true
unfolding collect_refunds
collect_refunds-seen k [] c e h = ground arith
collect_refunds-seen k (r ∷ rest) c e h =
    let (d, e1, e2) = >>=-eq-ok (collect_refund r c) (collect_refunds rest) e in
    collect_refunds-seen k rest d e2 (ground (arith, collect_refund-seen k r c e1))

collect_refunds-append :
    (rs ss : List Refund) (c : Collected)
    → collect_refunds (rs ++ ss) c ≡ (collect_refunds rs c >>= collect_refunds ss)
unfolding collect_refunds
collect_refunds-append [] ss c = refl
collect_refunds-append (r ∷ rest) ss c =
    elim (collect_refund r c)
      as (λ m.
        (m >>= λ x. collect_refunds (rest ++ ss) x)
        ≡ ((m >>= λ x. collect_refunds rest x) >>= collect_refunds ss)) [
          | ok d ↦ collect_refunds-append rest ss d
          | err e ↦ refl
        ]

collect_refund_again :
    (k : ℕ) (r : Refund) (c : Collected)
    → r.id ≡ some k
    → has_id k c.seen_refunds ≡ true
    → collect_refund r c ≡ ok c
unfolding collect_refund
collect_refund_again k r c e h = ground arith

-- A refund whose id an earlier refund of the order carries changes nothing, whatever it holds.
collect_refunds_again :
    (k : ℕ) (rs ss : List Refund) (r : Refund) (c : Collected)
    → r.id ≡ some k
    → any_of (has_refund_id k) rs ≡ true
    → collect_refunds (rs ++ r ∷ ss) c ≡ collect_refunds (rs ++ ss) c
unfolding collect_refunds
collect_refunds_again k rs ss r c e h =
    rw (collect_refunds-append rs (r ∷ ss) c, collect_refunds-append rs ss c)
      (go (collect_refunds rs c) refl)
  where
    go :
        (m : Result Collected)
        → collect_refunds rs c ≡ m
        → (m >>= collect_refunds (r ∷ ss)) ≡ (m >>= collect_refunds ss)
    go (err x) q = refl
    go (ok d) q = rw (collect_refund_again k r d e (collect_refunds-seen k rs c q (ground arith)))

-- A refund whose id an earlier refund of the order carries changes nothing, whatever it holds.
pub compute_refund_adjustments_again :
    (k : ℕ) (rs ss : List Refund) (r : Refund) (fulfillments : Option (List Fulfillment))
    (lines : List LineItem) (policy : Bool)
    → r.id ≡ some k
    → any_of (has_refund_id k) rs ≡ true
    → compute_refund_adjustments (rs ++ r ∷ ss) fulfillments lines policy
      ≡ compute_refund_adjustments (rs ++ ss) fulfillments lines policy
unfolding compute_refund_adjustments
compute_refund_adjustments_again k rs ss r fulfillments lines policy e h =
    rw (collect_refunds_again k rs ss r nothing_collected e h)
