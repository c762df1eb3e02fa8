-- ===== src/ProductOnly/Refunds.antt =====
-- computeRefundAdjustments: the effective quantity of each product line. `String(id)` keys are the
-- ids; the `Map` of refunded units by line is the list of units with their line ids, and reading
-- a key takes the units of that line in order.
pub mod Quantities
pub mod Redelivery
pub mod Counted
use store_kiotviet.Base.{
  ℕ, ◌+◌, ◌-◌, Bool, true, false, ◌&&◌, ◌||◌, not, Option, none, some, List, [], ◌∷◌, ◌++◌, map,
  Result, ok, ◌>>=◌, if◌then◌else◌, or_else, ◌==◌, ltb, has_id, keep_if, sum_by, is_empty, put,
}
use store_kiotviet.Base.Int.{ℤ, pos, sum_ℤ}
use store_kiotviet.Money.{to_cents}
use store_kiotviet.Shopify.{
  LineItem, RestockType, cancel, no_restock, other, RefundLineItem, Refund, Fulfillment,
}

pub record RefundedUnits : Type 0 where
  pub line : ℕ
  pub quantity : ℕ
  pub type : RestockType
  pub subtotal_cents : ℤ

-- The sets and the map that the first loop fills.
pub record Collected : Type 0 where
  pub seen_refunds : List ℕ
  pub seen_items : List ℕ
  pub units : List RefundedUnits

-- A missing id is never recorded as seen.
abbrev pub seen : Option ℕ → List ℕ → Bool
seen none ids = false
seen (some k) ids = has_id k ids

abbrev pub mark : Option ℕ → List ℕ → List ℕ
mark none ids = ids
mark (some k) ids = k ∷ ids

collect_item : RefundLineItem → Collected → Result Collected
collect_item item c = if item.quantity == 0 || seen item.id c.seen_items then ok c else do
  cents ← to_cents item.subtotal
  let u : RefundedUnits = record {
    line = item.line_item_id;
    quantity = item.quantity;
    type = item.restock_type;
    subtotal_cents = cents;
  }
  ok (record c { seen_items = mark item.id c.seen_items; units = c.units ++ u ∷ [] })

collect_items : List RefundLineItem → Collected → Result Collected
collect_items [] c = ok c
collect_items (item ∷ rest) c = collect_item item c >>= collect_items rest

collect_refund : Refund → Collected → Result Collected
unfolding collect_items collect_item
collect_refund r c =
    if seen r.id c.seen_refunds
    then ok c
    else collect_items r.refund_line_items (record c { seen_refunds = mark r.id c.seen_refunds })

pub collect_refunds : List Refund → Collected → Result Collected
collect_refunds [] c = ok c
collect_refunds (r ∷ rest) c = collect_refund r c >>= collect_refunds rest

abbrev pub nothing_collected : Collected
nothing_collected = record { seen_refunds = []; seen_items = []; units = [] }

-- Successfully fulfilled units of a line.
abbrev item_units : ℕ → ℕ × ℕ → ℕ
item_units key (id, quantity) = if id == key then quantity else 0

abbrev fulfillment_units : ℕ → Fulfillment → ℕ
fulfillment_units key f = if f.success then sum_by (item_units key) f.line_items else 0

abbrev pub fulfilled_units : Option (List Fulfillment) → ℕ → Option ℕ
fulfilled_units none key = none
fulfilled_units (some fs) key = some (sum_by (fulfillment_units key) fs)

pub data AdjustmentReason : Type 0 where
  unchanged cancelled_refund refunded_not_shipped : AdjustmentReason
  requires_verification invalid_refund_data : AdjustmentReason

pub data Problem : Type 0 where
  current_quantity_mismatch refunded_too_many returned_units : Problem
  no_restock_unproven refunded_may_be_shipped : Problem

pub record LineAdjustment : Type 0 where
  pub line_item_id : ℕ
  pub original_quantity : ℕ
  pub refunded_quantity : ℕ
  pub excluded_quantity : ℕ
  pub remaining_quantity : ℕ
  pub fulfilled_quantity : Option ℕ
  pub reason : AdjustmentReason
  pub excluded_refund_subtotal_cents : ℤ

-- A blocking reason: the code, by its constructor, the line and what is wrong with it.
pub data Ambiguity : Type 0 where
  refund_data_invalid refund_requires_verification : ℕ → List Problem → Ambiguity

abbrev pub is_cancel : RestockType → Bool
is_cancel cancel = true
is_cancel _ = false

abbrev pub is_no_restock : RestockType → Bool
is_no_restock no_restock = true
is_no_restock _ = false

abbrev pub units_where : (RestockType → Bool) → List RefundedUnits → ℕ
units_where p us = sum_by (λ u. u.quantity) (keep_if (λ u. p u.type) us)

abbrev pub subtotals : List RefundedUnits → ℤ
subtotals us = sum_ℤ (map (λ u. u.subtotal_cents) us)

abbrev when : Bool → Problem → List Problem
when true p = p ∷ []
when false p = []

-- `current !== original - refunded`; the difference is negative where too many are refunded.
abbrev differs : Option ℕ → ℕ → ℕ → Bool
differs none original refunded = false
differs (some current) original refunded = not (current + refunded == original)

unfoldable pub invalid_problems : Option ℕ → (original refunded : ℕ) → List Problem
invalid_problems current original refunded =
    when (differs current original refunded) current_quantity_mismatch
    ++ when (ltb original refunded) refunded_too_many

-- `fulfilled > original - cancelled - noRestock`, on integers.
abbrev pub shipped_beyond : Option ℕ → (original excluded : ℕ) → Bool
shipped_beyond none original excluded = false
shipped_beyond (some f) original excluded = ltb original (f + excluded)

abbrev is_none : Option ℕ → Bool
is_none none = true
is_none (some f) = false

unfoldable pub shipping_problems :
    Option ℕ → (original cancelled unrestocked returned : ℕ) → List Problem
shipping_problems fulfilled original cancelled unrestocked returned =
    when (ltb 0 returned) returned_units
    ++ when (ltb 0 unrestocked && is_none fulfilled) no_restock_unproven
    ++ when (shipped_beyond fulfilled original (cancelled + unrestocked)) refunded_may_be_shipped

-- What the loop body reads of one line.
pub record LineFacts : Type 0 where
  pub id : ℕ
  pub original : ℕ
  pub current : Option ℕ
  pub cancelled : ℕ
  pub unrestocked : ℕ
  pub returned : ℕ
  pub fulfilled : Option ℕ
  pub all_subtotals : ℤ
  pub excluded_subtotals : ℤ

abbrev pub refunded_of : LineFacts → ℕ
refunded_of l = l.cancelled + l.unrestocked + l.returned

unfoldable pub kept : LineFacts → AdjustmentReason → LineAdjustment
kept l why = record {
  line_item_id = l.id;
  original_quantity = l.original;
  refunded_quantity = refunded_of l;
  excluded_quantity = 0;
  remaining_quantity = l.original;
  fulfilled_quantity = l.fulfilled;
  reason = why;
  excluded_refund_subtotal_cents = pos 0;
}

unfoldable pub excluding : LineFacts → ℕ → AdjustmentReason → ℤ → LineAdjustment
excluding l n why subtotal = record {
  line_item_id = l.id;
  original_quantity = l.original;
  refunded_quantity = refunded_of l;
  excluded_quantity = n;
  remaining_quantity = l.original - n;
  fulfilled_quantity = l.fulfilled;
  reason = why;
  excluded_refund_subtotal_cents = subtotal;
}

-- The body of the last loop: the adjustment of the line, and its blocking reason if there is one.
unfoldable pub adjust_line : Bool → LineFacts → LineAdjustment × Option Ambiguity
unfolding kept excluding
adjust_line refund_means_not_shipped l =
    let refunded = refunded_of l in
    let invalid = invalid_problems l.current l.original refunded in
    let problems =
      invalid ++ shipping_problems l.fulfilled l.original l.cancelled l.unrestocked l.returned in
    if refund_means_not_shipped
    then (if not (is_empty invalid)
        then (kept l invalid_refund_data, some (refund_data_invalid l.id invalid))
        else if refunded == 0
        then (kept l unchanged, none)
        else (excluding l refunded refunded_not_shipped l.all_subtotals, none))
    else if not (is_empty problems)
    then (kept l requires_verification, some (refund_requires_verification l.id problems))
    else if refunded == 0
    then (kept l unchanged, none)
    else (excluding l (l.cancelled + l.unrestocked) cancelled_refund l.excluded_subtotals, none)

unfoldable pub line_facts : List RefundedUnits → Option (List Fulfillment) → LineItem → LineFacts
line_facts collected fulfillments line =
    let us = keep_if (λ (u : RefundedUnits). u.line == line.id) collected in
    record {
      id = line.id;
      original = line.quantity;
      current = line.current_quantity;
      cancelled = units_where is_cancel us;
      unrestocked = units_where is_no_restock us;
      returned = units_where (λ t. not (is_cancel t) && not (is_no_restock t)) us;
      fulfilled = fulfilled_units fulfillments line.id;
      all_subtotals = subtotals us;
      excluded_subtotals = subtotals (keep_if (λ u. is_cancel u.type || is_no_restock u.type) us);
    }

pub record RefundAdjustments : Type 0 where
  pub lines : List (ℕ × LineAdjustment)
  pub ambiguous : List Ambiguity

abbrev add_ambiguity : Option Ambiguity → List Ambiguity → List Ambiguity
add_ambiguity none found = found
add_ambiguity (some a) found = found ++ a ∷ []

adjust_lines : Bool → (LineItem → LineFacts) → List LineItem → RefundAdjustments → RefundAdjustments
unfolding adjust_line
adjust_lines policy facts [] r = r
adjust_lines policy facts (line ∷ rest) r =
    let (adjustment, ambiguity) = adjust_line policy (facts line) in
    adjust_lines policy facts rest (record {
      lines = put line.id adjustment r.lines;
      ambiguous = add_ambiguity ambiguity r.ambiguous;
    })

unfoldable pub compute_refund_adjustments :
    List Refund → Option (List Fulfillment) → List LineItem → Bool → Result RefundAdjustments
unfolding collect_refunds collect_refund adjust_lines line_facts
compute_refund_adjustments refunds fulfillments product_lines refund_means_not_shipped = do
  c ← collect_refunds refunds nothing_collected
  ok (
      adjust_lines refund_means_not_shipped (line_facts c.units fulfillments) product_lines
        (record { lines = []; ambiguous = [] }))
