-- ===== src/Returns/Lines/Taken.antt =====
-- What matchReturnLines takes: as many units as were returned, each from a line that has them.
use store_kiotviet.Base.{
  All, if◌then◌else◌, ℕ, ◌≤◌, ◌≡◌, Bool, true, ◌&&◌, some, List, [], ◌∷◌, ◌++◌, ltb, leb, ◌==◌,
  keep_if, sum_by, any_of, all_of,
}
use store_kiotviet.Base.Int.{pos_part}
use store_kiotviet.Text.{Text, text_eq, normalize_sku}
use store_kiotviet.Returns.{units, fractional, ReturnLine, RefundableLine, RefundLine}
use store_kiotviet.Returns.Lines.{is_sold_as, refundable}

-- The units of a return, where each quantity is a positive integer.
abbrev pub units_of : ReturnLine → ℕ
units_of line = elim line.quantity [ units n ↦ pos_part n | fractional ↦ 0 ]

-- The units of a SKU, among wanted ones and in a return.
abbrev pub wanted_units : Text → List (Text × ℕ) → ℕ
wanted_units sku ws = sum_by (λ w. if text_eq w.0 sku then w.1 else 0) ws

abbrev pub returned_units : Text → List ReturnLine → ℕ
returned_units sku lines =
    sum_by (λ r. if text_eq (normalize_sku (some r.product_code)) sku then units_of r else 0) lines

abbrev pub taken : List RefundLine → ℕ
taken lines = sum_by (λ l. l.quantity) lines

-- A line that is taken is within the refundable quantity of a Shopify line of its id.
abbrev pub covers : RefundLine → RefundableLine → Bool
covers l s = s.id == l.line_item_id && leb l.quantity (refundable s)

abbrev pub is_covered : (RefundableLine → Bool) → List RefundableLine → RefundLine → Bool
is_covered test lines l = ltb 0 l.quantity && any_of (λ s. test s && covers l s) lines

-- The units that are taken from a line, and those that are refundable there.
abbrev pub taken_at : ℕ → List RefundLine → ℕ
taken_at id lines = sum_by (λ l. if l.line_item_id == id then l.quantity else 0) lines

abbrev pub refundable_at : ℕ → List RefundableLine → ℕ
refundable_at id lines = sum_by (λ s. if s.id == id then refundable s else 0) lines

-- The lines that were taken for each SKU, one after the other.
abbrev pub all_parts : List (Text × List RefundLine) → List RefundLine
all_parts [] = []
all_parts ((sku, lines) ∷ parts) = lines ++ all_parts parts

abbrev pub taken_for : Text → List (Text × List RefundLine) → ℕ
taken_for sku parts = sum_by (λ p. if text_eq p.0 sku then taken p.1 else 0) parts

-- Each line that is taken for a SKU is sold as it, and no line gives more than is refundable there.
abbrev pub IsSoldSo : List RefundableLine → Text × List RefundLine → Type 0
IsSoldSo shopify (sku, lines) =
    (all_of (is_covered (is_sold_as sku) shopify) lines ≡ true)
    × ((id : ℕ) → taken_at id lines ≤ refundable_at id (keep_if (is_sold_as sku) shopify))

-- The lines are parts, one for each SKU, with the units of that SKU that were returned.
abbrev pub IsTakenFor : List ReturnLine → List RefundableLine → List RefundLine → Type 0
IsTakenFor returned shopify out =
    (parts : List (Text × List RefundLine)) × (out ≡ all_parts parts)
    × ((sku : Text) → taken_for sku parts ≡ returned_units sku returned)
    × All (IsSoldSo shopify) parts
