-- ===== src/ProductOnly/Refunds/Quantities.antt =====
-- The quantities of computeRefundAdjustments.
use store_kiotviet.Base.{
  ℕ, ◌+◌, ◌≤◌, ◌≡◌, refl, sym, ◌≢◌, inl, inr, Bool, true, false, Option, none, some, List, [], ◌∷◌,
  arith, ok, >>=-eq-ok, All, get, put, get-put, ◌==◌, subst, eq_of_some, ok-injective, All-imp,
  Bool-cases, ==-self, any_of, ◌&&◌, ◌∙◌,
}
use store_kiotviet.Shopify.{LineItem, Refund, Fulfillment}
use store_kiotviet.ProductOnly.Refunds.{
  LineFacts, LineAdjustment, cancelled_refund, refunded_of, adjust_line, invalid_problems,
  shipping_problems, line_facts, RefundAdjustments, Ambiguity, add_ambiguity, adjust_lines,
  collect_refunds, nothing_collected, compute_refund_adjustments, Collected,
}
use store_kiotviet.ProductOnly.Refunds.Counted.{
  counted_units, units_where-collected, collect_refunds-counted,
}

-- Under either policy: without a blocking reason exactly the refunded units are gone, with one none
-- is.
pub adjust_line_effective :
    (policy : Bool) (l : LineFacts)
    → let (a, blocking) = adjust_line policy l in
      (blocking ≡ none → a.remaining_quantity + refunded_of l ≡ l.original)
      × (blocking ≢ none → a.remaining_quantity ≡ l.original)
unfolding adjust_line invalid_problems shipping_problems
adjust_line_effective true l = (λ h. ground arith, λ h. ground arith)
adjust_line_effective false l = (λ h. ground arith, λ h. ground arith)

-- Under the strict policy a line loses refunded units only if none came back and, with Shopify's
-- fulfillments, the removed units are unshipped; without them none was refunded without a restock.
pub adjust_line_unshipped :
    (l : LineFacts)
    → (adjust_line false l).0.reason ≡ cancelled_refund
    → (l.returned ≡ 0)
      × (l.fulfilled ≡ none → l.unrestocked ≡ 0)
      × ((f : ℕ) → l.fulfilled ≡ some f → f + l.cancelled + l.unrestocked ≤ l.original)
unfolding adjust_line invalid_problems shipping_problems
adjust_line_unshipped l h = (ground arith, λ e. ground arith, λ f e. ground arith)

-- The adjustment of a line, by the numbers that it stores itself.
abbrev pub Splits : LineAdjustment → Type 0
Splits a =
    (a.excluded_quantity + a.remaining_quantity ≡ a.original_quantity)
    × (a.excluded_quantity ≤ a.refunded_quantity)

-- A line with this id was ordered in this quantity.
abbrev pub is_ordered : List LineItem → ℕ → ℕ → Bool
is_ordered lines id quantity = any_of (λ line. line.id == id && line.quantity == quantity) lines

-- The adjustment under a line id: by the numbers of the order and of its refunds.
abbrev pub Counts : List Refund → List LineItem → ℕ → LineAdjustment → Type 0
Counts refunds lines id a =
    Splits a
    × (is_ordered lines id a.original_quantity ≡ true)
    × (a.refunded_quantity ≡ counted_units id refunds)

abbrev pub IsEffective : LineAdjustment → Type 0
IsEffective a = a.remaining_quantity + a.refunded_quantity ≡ a.original_quantity

adjust_line-Splits : (policy : Bool) (l : LineFacts) → Splits (adjust_line policy l).0
unfolding adjust_line invalid_problems shipping_problems
adjust_line-Splits policy l = ground arith

adjust_line-facts :
    (policy : Bool) (l : LineFacts)
    → ((adjust_line policy l).0.original_quantity ≡ l.original)
      × ((adjust_line policy l).0.refunded_quantity ≡ refunded_of l)
unfolding adjust_line invalid_problems shipping_problems
adjust_line-facts policy l = (ground arith, ground arith)

is_ordered-all :
    (lines : List LineItem) → All (λ line. is_ordered lines line.id line.quantity ≡ true) lines
is_ordered-all [] = tt
is_ordered-all (line ∷ rest) = (
  let self = ==-self line.id in let same = ==-self line.quantity in ground arith,
  All-imp (λ x h. ground arith) rest (is_ordered-all rest),
)

adjust_line-IsEffective :
    (policy : Bool) (l : LineFacts)
    → (adjust_line policy l).1 ≡ none
    → IsEffective (adjust_line policy l).0
unfolding adjust_line invalid_problems shipping_problems
adjust_line-IsEffective true l h = ground arith
adjust_line-IsEffective false l h = ground arith

-- A property of the entries by their keys.
module _ {V : Type 0} (P : ℕ → V → Type 0) where
  put-All :
      (k : ℕ) (v : V) (m : List (ℕ × V))
      → P k v
      → All (λ e. P e.0 e.1) m
      → All (λ e. P e.0 e.1) (put k v m)
  put-All k v [] p h = (p, tt)
  put-All k v ((j, w) ∷ m) p h = elim (Bool-cases (k == j)) [
    | inl e ↦ rw e (p, h.1)
    | inr e ↦ rw e (h.0, put-All k v m p h.1)
  ]

  get-All : (k : ℕ) {v : V} (m : List (ℕ × V)) → get k m ≡ some v → All (λ e. P e.0 e.1) m → P k v
  get-All k [] e h = cc
  get-All k ((j, w) ∷ m) e h = elim (Bool-cases (k == j)) [
    | inl t ↦
        let same : j ≡ k = ground arith in
        subst (λ x. P k x) (eq_of_some (rw t at e)) (subst (λ x. P x w) same h.0)
    | inr t ↦ get-All k m (rw t at e) h.1
  ]

add_ambiguity-eq-nil :
    (o : Option Ambiguity) (found : List Ambiguity)
    → add_ambiguity o found ≡ []
    → (o ≡ none) × (found ≡ [])
add_ambiguity-eq-nil none found h = (refl, h)
add_ambiguity-eq-nil (some a) [] h = cc
add_ambiguity-eq-nil (some a) (b ∷ found) h = cc

module _ (policy : Bool) (facts : LineItem → LineFacts) where
  adjust_lines-Counts :
      (refunds : List Refund) (all : List LineItem)
      → ((line : LineItem)
          → ((facts line).original ≡ line.quantity)
            × (refunded_of (facts line) ≡ counted_units line.id refunds))
      → (lines : List LineItem) (r : RefundAdjustments)
      → All (λ line. is_ordered all line.id line.quantity ≡ true) lines
      → All (λ e. Counts refunds all e.0 e.1) r.lines
      → All (λ e. Counts refunds all e.0 e.1) (adjust_lines policy facts lines r).lines
  unfolding adjust_lines
  adjust_lines-Counts refunds all right [] r o h = h
  adjust_lines-Counts refunds all right (line ∷ rest) r o h =
      let (ordered, refunded) = adjust_line-facts policy (facts line) in
      let (original, counted) = right line in
      adjust_lines-Counts refunds all right rest _ o.1 (
        put-All (Counts refunds all) line.id _ r.lines
          (adjust_line-Splits policy (facts line), rw (ordered ∙ original) o.0, refunded ∙ counted)
          h)

  -- Blocking reasons are only ever added.
  adjust_lines-ambiguous :
      (lines : List LineItem) (r : RefundAdjustments)
      → (adjust_lines policy facts lines r).ambiguous ≡ []
      → r.ambiguous ≡ []
  unfolding adjust_lines
  adjust_lines-ambiguous [] r h = h
  adjust_lines-ambiguous (line ∷ rest) r h =
      (add_ambiguity-eq-nil (adjust_line policy (facts line)).1 r.ambiguous
        (adjust_lines-ambiguous rest _ h)).1

  adjust_lines-IsEffective :
      (lines : List LineItem) (r : RefundAdjustments)
      → (adjust_lines policy facts lines r).ambiguous ≡ []
      → All (λ e. IsEffective e.1) r.lines
      → All (λ e. IsEffective e.1) (adjust_lines policy facts lines r).lines
  unfolding adjust_lines
  adjust_lines-IsEffective [] r h k = k
  adjust_lines-IsEffective (line ∷ rest) r h k =
      let clean =
        add_ambiguity-eq-nil (adjust_line policy (facts line)).1 r.ambiguous
          (adjust_lines-ambiguous rest _ h) in
      adjust_lines-IsEffective rest _ h (
        put-All (λ k a. IsEffective a) line.id _ r.lines
          (adjust_line-IsEffective policy (facts line) clean.0) k)

  abbrev IsAdjusted : ℕ → RefundAdjustments → Type 0
  IsAdjusted k r = (a : LineAdjustment) × (get k r.lines ≡ some a)

  put-get :
      (k j : ℕ) {a : LineAdjustment} (v : LineAdjustment) (m : List (ℕ × LineAdjustment))
      → get j m ≡ some a
      → (b : LineAdjustment) × (get j (put k v m) ≡ some b)
  put-get k j {a} v m e = elim (Bool-cases (j == k)) [
    | inl t ↦ (v, rw (get-put k j v m, t))
    | inr t ↦ (a, rw (get-put k j v m, t) e)
  ]

  adjust_lines-IsAdjusted :
      (k : ℕ) (lines : List LineItem) (r : RefundAdjustments)
      → IsAdjusted k r
      → IsAdjusted k (adjust_lines policy facts lines r)
  unfolding adjust_lines
  adjust_lines-IsAdjusted k [] r h = h
  adjust_lines-IsAdjusted k (line ∷ rest) r h =
      adjust_lines-IsAdjusted k rest _ (put-get line.id k _ r.lines h.1)

  adjust_lines-All :
      (lines : List LineItem) (r : RefundAdjustments)
      → All (λ line. IsAdjusted line.id (adjust_lines policy facts lines r)) lines
  unfolding adjust_lines
  adjust_lines-All [] r = tt
  adjust_lines-All (line ∷ rest) r =
      let a = (adjust_line policy (facts line)).0 in
      (
        adjust_lines-IsAdjusted line.id rest _
            (a, rw (get-put line.id line.id a r.lines, ==-self line.id)),
        adjust_lines-All rest _,
      )

abbrev start : RefundAdjustments
start = record { lines = []; ambiguous = [] }

abbrev pub Adjusted : List Refund → List LineItem → RefundAdjustments → LineItem → Type 0
Adjusted refunds lines r line =
    (a : LineAdjustment) × (get line.id r.lines ≡ some a)
    × Counts refunds lines line.id a
    × IsEffective a

line_facts-right :
    (refunds : List Refund) (fulfillments : Option (List Fulfillment)) (c : Collected)
    (line : LineItem)
    → collect_refunds refunds nothing_collected ≡ ok c
    → ((line_facts c.units fulfillments line).original ≡ line.quantity)
      × (refunded_of (line_facts c.units fulfillments line) ≡ counted_units line.id refunds)
unfolding line_facts
line_facts-right refunds fulfillments c line e =
    (refl, units_where-collected line.id c.units ∙ collect_refunds-counted line.id refunds e)

-- When no refund is ambiguous, every product line has an adjustment under its id: its original
-- quantity is that of a line with the id, its refunded quantity is that of all refund items of the
-- line, where a repeated refund or item counts once, it excludes no more than that, and what
-- remains is the original quantity less the refunded one.
pub compute_refund_adjustments_effective :
    (refunds : List Refund) (fulfillments : Option (List Fulfillment)) (lines : List LineItem)
    (policy : Bool) (r : RefundAdjustments)
    → compute_refund_adjustments refunds fulfillments lines policy ≡ ok r
    → r.ambiguous ≡ []
    → All (Adjusted refunds lines r) lines
unfolding compute_refund_adjustments
compute_refund_adjustments_effective refunds fulfillments lines policy r e clean =
    let (c, collected, done) = >>=-eq-ok (collect_refunds refunds nothing_collected) _ e in
    let facts = line_facts c.units fulfillments in
    let q : adjust_lines policy facts lines start ≡ r = ok-injective done in
    let clean' = subst (λ (x : RefundAdjustments). x.ambiguous ≡ []) (sym q) clean in
    subst (λ (x : RefundAdjustments). All (Adjusted refunds lines x) lines) q
      (All-imp
        (λ line (a, g). (
          a,
          g,
          get-All (Counts refunds lines) line.id _ g (
              adjust_lines-Counts policy facts refunds lines
                (λ line. line_facts-right refunds fulfillments c line collected) lines start
                (is_ordered-all lines) tt),
          get-All (λ k a. IsEffective a) line.id _ g
              (adjust_lines-IsEffective policy facts lines start clean' tt),
        ))
        lines (adjust_lines-All policy facts lines start))
