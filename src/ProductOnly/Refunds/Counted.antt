-- ===== src/ProductOnly/Refunds/Counted.antt =====
-- The refunded units that computeRefundAdjustments counts, described on the refunds alone: the first
-- refund with an id, of these the first item with an id, and no item without units.
use store_kiotviet.Base.{
  ℕ, ◌+◌, ◌≡◌, refl, sym, subst, ◌∙◌, Bool, true, false, ◌||◌, ◌&&◌, not, Option, List, [], ◌∷◌,
  ◌++◌, arith, ok, >>=-eq-ok, Bool-cases, inl, inr, if◌then◌else◌, ◌==◌, keep_if, sum_by,
  ok-injective,
}
use store_kiotviet.Base.Int.{ℤ}
use store_kiotviet.Money.{to_cents}
use store_kiotviet.Shopify.{RefundLineItem, Refund}
use store_kiotviet.ProductOnly.Refunds.{
  Collected, RefundedUnits, seen, mark, is_cancel, is_no_restock, units_where, collect_item,
  collect_items, collect_refund, collect_refunds, nothing_collected,
}

module _ {A : Type 0} (id_of : A → Option ℕ) where
  -- The entries whose id is not among `ids` and not that of an earlier one.
  abbrev pub firsts : List ℕ → List A → List A
  firsts ids [] = []
  firsts ids (x ∷ xs) =
      if seen (id_of x) ids then firsts ids xs else x ∷ firsts (mark (id_of x) ids) xs

  abbrev seen_after : List ℕ → List A → List ℕ
  seen_after ids [] = ids
  seen_after ids (x ∷ xs) =
      if seen (id_of x) ids then seen_after ids xs else seen_after (mark (id_of x) ids) xs

  firsts-append :
      (ids : List ℕ) (xs ys : List A)
      → firsts ids (xs ++ ys) ≡ firsts ids xs ++ firsts (seen_after ids xs) ys
  firsts-append ids [] ys = refl
  firsts-append ids (x ∷ xs) ys = elim (Bool-cases (seen (id_of x) ids)) [
    | inl h ↦ rw h (firsts-append ids xs ys)
    | inr h ↦ rw h (rw (firsts-append (mark (id_of x) ids) xs ys) refl)
  ]

  seen_after-append :
      (ids : List ℕ) (xs ys : List A)
      → seen_after ids (xs ++ ys) ≡ seen_after (seen_after ids xs) ys
  seen_after-append ids [] ys = refl
  seen_after-append ids (x ∷ xs) ys = elim (Bool-cases (seen (id_of x) ids)) [
    | inl h ↦ rw h (seen_after-append ids xs ys)
    | inr h ↦ rw h (seen_after-append (mark (id_of x) ids) xs ys)
  ]

abbrev pub items_of : List Refund → List RefundLineItem
items_of [] = []
items_of (r ∷ rs) = r.refund_line_items ++ items_of rs

abbrev pub has_units : RefundLineItem → Bool
has_units item = not (item.quantity == 0)

abbrev pub counted_items : List Refund → List RefundLineItem
counted_items refunds =
    firsts (λ item. item.id) [] (keep_if has_units (items_of (firsts (λ r. r.id) [] refunds)))

abbrev pub units_on : ℕ → List RefundLineItem → ℕ
units_on key items = sum_by (λ item. if item.line_item_id == key then item.quantity else 0) items

-- The units of a line that the refunds of the order take, each counted once.
abbrev pub counted_units : ℕ → List Refund → ℕ
counted_units key refunds = units_on key (counted_items refunds)

abbrev pub collected_on : ℕ → List RefundedUnits → ℕ
collected_on key us = sum_by (λ u. if u.line == key then u.quantity else 0) us

collected_on-append :
    (key : ℕ) (us vs : List RefundedUnits)
    → collected_on key (us ++ vs) ≡ collected_on key us + collected_on key vs
collected_on-append key [] vs = omega arith
collected_on-append key (u ∷ us) vs = omega (arith, collected_on-append key us vs)

units_on-append :
    (key : ℕ) (us vs : List RefundLineItem)
    → units_on key (us ++ vs) ≡ units_on key us + units_on key vs
units_on-append key [] vs = omega arith
units_on-append key (u ∷ us) vs = omega (arith, units_on-append key us vs)

keep_if-append :
    (p : RefundLineItem → Bool) (xs ys : List RefundLineItem)
    → keep_if p (xs ++ ys) ≡ keep_if p xs ++ keep_if p ys
keep_if-append p [] ys = refl
keep_if-append p (x ∷ xs) ys = elim (Bool-cases (p x)) [
  | inl h ↦ rw h (rw (keep_if-append p xs ys) refl)
  | inr h ↦ rw h (keep_if-append p xs ys)
]

abbrev fresh_items : List ℕ → List RefundLineItem → List RefundLineItem
fresh_items ids items = firsts (λ item. item.id) ids (keep_if has_units items)

-- What reading items does to what was collected.
record IsCollected (key : ℕ) (c d : Collected) (items : List RefundLineItem) : Type 0 where
  units :
      collected_on key d.units
      ≡ collected_on key c.units + units_on key (fresh_items c.seen_items items)
  ids : d.seen_items ≡ seen_after (λ item. item.id) c.seen_items (keep_if has_units items)
  refunds : d.seen_refunds ≡ c.seen_refunds

abbrev item_id : RefundLineItem → Option ℕ
item_id item = item.id

fresh_items-append :
    (key : ℕ) (ids : List ℕ) (xs ys : List RefundLineItem)
    → units_on key (fresh_items ids (xs ++ ys))
      ≡ units_on key (fresh_items ids xs)
        + units_on key (fresh_items (seen_after item_id ids (keep_if has_units xs)) ys)
fresh_items-append key ids xs ys = rw (keep_if-append has_units xs ys) (
    rw (firsts-append item_id ids (keep_if has_units xs) (keep_if has_units ys))
      (units_on-append key (fresh_items ids xs) _))

IsCollected-append :
    (key : ℕ) (c m d : Collected) (xs ys : List RefundLineItem)
    → IsCollected key c m xs
    → IsCollected key m d ys
    → IsCollected key c d (xs ++ ys)
IsCollected-append key c m d xs ys h k = record {
  units =
      let both = fresh_items-append key c.seen_items xs ys in
      let first = h.units in
      let later =
        subst
          (λ ids.
            collected_on key d.units ≡ collected_on key m.units + units_on key (fresh_items ids ys))
          h.ids k.units in
      omega (arith, both, first, later);
  ids = rw (keep_if-append has_units xs ys) (
      rw
        (
          seen_after-append item_id c.seen_items (keep_if has_units xs) (keep_if has_units ys),
          sym h.ids,
        )
        k.ids);
  refunds = k.refunds ∙ h.refunds;
}

abbrev units_of_item : RefundLineItem → ℤ → RefundedUnits
units_of_item item cents = record {
  line = item.line_item_id;
  quantity = item.quantity;
  type = item.restock_type;
  subtotal_cents = cents;
}

abbrev with_item : RefundLineItem → ℤ → Collected → Collected
with_item item cents c = record c {
  seen_items = mark item.id c.seen_items;
  units = c.units ++ (units_of_item item cents ∷ []);
}

-- An item that is skipped changes nothing.
skipped-IsCollected :
    (key : ℕ) (item : RefundLineItem) (c : Collected)
    → (item.quantity == 0 || seen item.id c.seen_items) ≡ true
    → IsCollected key c c (item ∷ [])
skipped-IsCollected key item c h = elim (Bool-cases (item.quantity == 0)) [
  | inl z ↦ record { units = rw z (omega arith); ids = rw z refl; refunds = refl }
  | inr n ↦
      let s : seen item.id c.seen_items ≡ true = rw n at h in
      record { units = rw (n, s) (omega arith); ids = rw (n, s) refl; refunds = refl }
]

taken-IsCollected :
    (key : ℕ) (item : RefundLineItem) (c : Collected) (cents : ℤ)
    → (item.quantity == 0 || seen item.id c.seen_items) ≡ false
    → IsCollected key c (with_item item cents c) (item ∷ [])
taken-IsCollected key item c cents h = elim (Bool-cases (item.quantity == 0)) [
  | inl z ↦ absurd (ground arith)
  | inr n ↦
      let f : seen item.id c.seen_items ≡ false = rw n at h in
      record {
        units =
            rw (n, f)
              (omega (arith, collected_on-append key c.units (units_of_item item cents ∷ [])));
        ids = rw (n, f) refl;
        refunds = refl;
      }
]

collect_item-IsCollected :
    (key : ℕ) (item : RefundLineItem) (c : Collected) {d : Collected}
    → collect_item item c ≡ ok d
    → IsCollected key c d (item ∷ [])
unfolding collect_item
collect_item-IsCollected key item c {d} e =
    elim (Bool-cases (item.quantity == 0 || seen item.id c.seen_items)) [
      | inl s ↦
          subst (λ x. IsCollected key c x (item ∷ [])) (ok-injective (rw s at e))
            (skipped-IsCollected key item c s)
      | inr f ↦
          let (cents, read, stored) = >>=-eq-ok (to_cents item.subtotal) _ (rw f at e) in
          subst (λ x. IsCollected key c x (item ∷ [])) (ok-injective stored)
            (taken-IsCollected key item c cents f)
    ]

collect_items-IsCollected :
    (key : ℕ) (items : List RefundLineItem) (c : Collected) {d : Collected}
    → collect_items items c ≡ ok d
    → IsCollected key c d items
unfolding collect_items
collect_items-IsCollected key [] c e =
    rw (ok-injective e) (record { units = omega arith; ids = refl; refunds = refl })
collect_items-IsCollected key (item ∷ rest) c {d} e =
    let (m, here, later) = >>=-eq-ok (collect_item item c) (collect_items rest) e in
    IsCollected-append key c m d (item ∷ []) rest (collect_item-IsCollected key item c here)
      (collect_items-IsCollected key rest m later)

subst2 : {A B : Type 0} (P : A → B → Type 0) {a x : A} {b y : B} → a ≡ x → b ≡ y → P a b → P x y
subst2 P {a} {x} {b} {y} p q h = subst (λ z. P x z) q (subst (λ z. P z b) p h)

abbrev refund_id : Refund → Option ℕ
refund_id r = r.id

-- What was collected on a line, if the refunds are still to be read.
abbrev IsComplete : ℕ → Collected → Collected → List Refund → Type 0
IsComplete key d c refunds =
    collected_on key d.units
    ≡ collected_on key c.units
      + units_on key (fresh_items c.seen_items (items_of (firsts refund_id c.seen_refunds refunds)))

abbrev marked : Refund → Collected → Collected
marked r c = record c { seen_refunds = mark r.id c.seen_refunds }

read-IsComplete :
    (key : ℕ) (r : Refund) (rest : List Refund) (c m d : Collected)
    → seen r.id c.seen_refunds ≡ false
    → IsCollected key (marked r c) m r.refund_line_items
    → IsComplete key d m rest
    → IsComplete key d c (r ∷ rest)
read-IsComplete key r rest c m d f read h =
    let units = read.units in
    let more = items_of (firsts refund_id (mark r.id c.seen_refunds) rest) in
    let next =
      subst2
        (λ is rs.
          collected_on key d.units
          ≡ collected_on key m.units
            + units_on key (fresh_items is (items_of (firsts refund_id rs rest))))
        read.ids read.refunds h in
    rw f (omega (arith, units, next, fresh_items-append key c.seen_items r.refund_line_items more))

collect_refund-IsComplete :
    (key : ℕ) (r : Refund) (rest : List Refund) (c m d : Collected)
    → collect_refund r c ≡ ok m
    → IsComplete key d m rest
    → IsComplete key d c (r ∷ rest)
unfolding collect_refund
collect_refund-IsComplete key r rest c m d e h = elim (Bool-cases (seen r.id c.seen_refunds)) [
  | inl s ↦ rw s (subst (λ x. IsComplete key d x rest) (sym (ok-injective (rw s at e))) h)
  | inr f ↦
      read-IsComplete key r rest c m d f
        (collect_items-IsCollected key r.refund_line_items (marked r c) (rw f at e)) h
]

collect_refunds-IsComplete :
    (key : ℕ) (refunds : List Refund) (c : Collected) {d : Collected}
    → collect_refunds refunds c ≡ ok d
    → IsComplete key d c refunds
unfolding collect_refunds
collect_refunds-IsComplete key [] c e = rw (ok-injective e) (omega arith)
collect_refunds-IsComplete key (r ∷ rest) c {d} e =
    let (m, here, later) = >>=-eq-ok (collect_refund r c) (collect_refunds rest) e in
    collect_refund-IsComplete key r rest c m d here (collect_refunds-IsComplete key rest m later)

-- What was collected on a line is what the refunds count there.
pub collect_refunds-counted :
    (key : ℕ) (refunds : List Refund) {d : Collected}
    → collect_refunds refunds nothing_collected ≡ ok d
    → collected_on key d.units ≡ counted_units key refunds
collect_refunds-counted key refunds e =
    let all = collect_refunds-IsComplete key refunds nothing_collected e in omega (arith, all)

-- The units of a line by their restock types.
pub units_where-collected :
    (key : ℕ) (us : List RefundedUnits)
    → let mine = keep_if (λ (u : RefundedUnits). u.line == key) us in
      units_where is_cancel mine
        + units_where is_no_restock mine
        + units_where (λ t. not (is_cancel t) && not (is_no_restock t)) mine
      ≡ collected_on key us
units_where-collected key [] = omega arith
units_where-collected key (u ∷ us) = let ih = units_where-collected key us in ground arith
