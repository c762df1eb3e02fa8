-- ===== src/Returns/Lines.antt =====
-- matchReturnLines of lib/sync/return-sync.ts: the Shopify lines that cover the returned units.
pub mod Taken
use store_kiotviet.Base.{
  ℕ, ◌+◌, ◌-◌, min, Bool, ◌&&◌, not, List, [], ◌∷◌, ◌++◌, Result, ok, err, AppError, ◌>>=◌, ◌>>◌,
  throw_if, if◌then◌else◌, ltb, ◌==◌, is_empty, keep_if, sum_by, some,
}
use store_kiotviet.Base.Int.{ℤ, pos, negsuc, pos_part}
use store_kiotviet.Text.{Text, text_eq, normalize_sku}
use store_kiotviet.Returns.{Quantity, units, fractional, ReturnLine, RefundableLine, RefundLine}

-- A positive integer, or the error.
unfoldable pub read_quantity : Quantity → Result ℕ
read_quantity fractional = err AppError.validation
read_quantity (units (negsuc n)) = err AppError.validation
read_quantity (units (pos n)) = throw_if (n == 0) AppError.validation >> ok n

-- `wanted.set(sku, (wanted.get(sku) ?? 0) + quantity)`, in the order of the first occurrences
unfoldable pub want : Text → ℕ → List (Text × ℕ) → List (Text × ℕ)
want sku n [] = (sku, n) ∷ []
want sku n ((s, m) ∷ rest) = if text_eq sku s then (s, m + n) ∷ rest else (s, m) ∷ want sku n rest

unfoldable pub collect_wanted : List ReturnLine → List (Text × ℕ) → Result (List (Text × ℕ))
unfolding read_quantity want
collect_wanted [] wanted = ok wanted
collect_wanted (line ∷ rest) wanted = do
  n ← read_quantity line.quantity
  collect_wanted rest (want (normalize_sku (some line.product_code)) n wanted)

unfoldable pub is_sold_as : Text → RefundableLine → Bool
is_sold_as sku line = not (is_empty sku) && text_eq (normalize_sku line.sku) sku

abbrev pub refundable : RefundableLine → ℕ
refundable line = pos_part line.refundable_quantity

-- The spread over the lines, as far as units are left.
unfoldable pub spread : ℕ → List RefundableLine → List RefundLine
spread left [] = []
spread left (line ∷ lines) =
    let rest = spread (left - refundable line) lines in
    if ltb 0 (min left (refundable line))
    then record { line_item_id = line.id; quantity = min left (refundable line) }
      ∷ (if left - refundable line == 0 then [] else rest)
    else (if left - refundable line == 0 then [] else rest)

-- `precedes a b` stands for `a.localeCompare(b) <= 0` on ids; the sort is stable.
module _ (precedes : ℕ → ℕ → Bool) where
  unfoldable pub insert : RefundableLine → List RefundableLine → List RefundableLine
  insert x [] = x ∷ []
  insert x (y ∷ ys) = if precedes x.id y.id then x ∷ y ∷ ys else y ∷ insert x ys

  unfoldable pub sort_by_id : List RefundableLine → List RefundableLine
  unfolding insert
  sort_by_id [] = []
  sort_by_id (x ∷ xs) = insert x (sort_by_id xs)

  -- The lines that refund `n` units of a SKU.
  unfoldable pub match_sku : List RefundableLine → Text → ℕ → Result (List RefundLine)
  unfolding sort_by_id spread is_sold_as
  match_sku shopify sku n =
      let candidates = sort_by_id (keep_if (is_sold_as sku) shopify) in
      do
        throw_if (is_empty candidates) AppError.mapping
        throw_if (ltb (sum_by refundable candidates) n) AppError.validation
        ok (spread n candidates)

  unfoldable pub match_wanted : List RefundableLine → List (Text × ℕ) → Result (List RefundLine)
  unfolding match_sku
  match_wanted shopify [] = ok []
  match_wanted shopify ((sku, n) ∷ rest) = do
    lines ← match_sku shopify sku n
    more ← match_wanted shopify rest
    ok (lines ++ more)

  unfoldable pub match_return_lines :
      List ReturnLine → List RefundableLine → Result (List RefundLine)
  unfolding collect_wanted match_wanted
  match_return_lines returned shopify = do
    wanted ← collect_wanted returned []
    match_wanted shopify wanted
