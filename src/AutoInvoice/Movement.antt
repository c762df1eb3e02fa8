-- ===== src/AutoInvoice/Movement.antt =====
-- verifyStockMovement of lib/sync/invoice-sync.ts: the stock moved by exactly the invoiced quantities.
use store_kiotviet.Base.{
  ℕ, ◌+◌, ◌≡◌, refl, sym, ap, ◌||◌, ◌∙◌, arith, Bool, true, false, Option, none, some, List, [],
  ◌∷◌, if◌then◌else◌, ◌==◌, get, put, or_else, all_of, get-put, any_of, eq_of_some,
}
use store_kiotviet.Base.Int.{ℤ, pos, ◌-ℤ◌, eqb_ℤ, eq_of_parts}
use store_kiotviet.AutoInvoice.{ExpectedLine, Stock}

abbrev Quantities : Type 0
Quantities = List (ℕ × ℕ)

-- The invoiced quantity of each product, in a map.
unfoldable pub add_quantities : List ExpectedLine → Quantities → Quantities
add_quantities [] m = m
add_quantities (l ∷ lines) m =
    add_quantities lines (put l.product_id (or_else (get l.product_id m) 0 + l.quantity) m)

abbrev moved_from : ℕ → Option (Option ℤ) → Option (Option ℤ) → Bool
moved_from n (some (some before)) (some (some after)) = eqb_ℤ after (before -ℤ pos n)
moved_from n _ _ = false

abbrev has_moved : (before after : Stock) → ℕ × ℕ → Bool
has_moved before after (product, n) = moved_from n (get product before) (get product after)

unfoldable pub verify_stock_movement : List ExpectedLine → (before after : Stock) → Bool
unfolding add_quantities
verify_stock_movement lines before after = all_of (has_moved before after) (add_quantities lines [])

-- The quantity of a product over all lines, without a map.
abbrev pub invoiced : ℕ → List ExpectedLine → ℕ
invoiced k [] = 0
invoiced k (l ∷ lines) =
    if k == l.product_id then l.quantity + invoiced k lines else invoiced k lines

abbrev pub is_invoiced : ℕ → List ExpectedLine → Bool
is_invoiced k lines = any_of (λ l. k == l.product_id) lines

not_invoiced :
    (k : ℕ) (lines : List ExpectedLine) → is_invoiced k lines ≡ false → invoiced k lines ≡ 0
not_invoiced k [] h = refl
not_invoiced k (l ∷ lines) h = let ih = not_invoiced k lines in ground arith

get-add :
    (k j q : ℕ) (m : Quantities)
    → get k (put j (or_else (get j m) 0 + q) m)
      ≡ (if k == j then some (or_else (get k m) 0 + q) else get k m)
get-add k j q m = get-put j k (or_else (get j m) 0 + q) m ∙ same (k == j) refl
  where
    same :
        (b : Bool)
        → (k == j) ≡ b
        → (if b then some (or_else (get j m) 0 + q) else get k m)
          ≡ (if b then some (or_else (get k m) 0 + q) else get k m)
    same true e = let eq : k ≡ j = ground arith in rw eq refl
    same false e = refl

combine :
    (here later : Bool) (old : Option ℕ) (q sum : ℕ) {out : Option ℕ}
    → out ≡ (
        if later
        then some (or_else (if here then some (or_else old 0 + q) else old) 0 + sum)
        else (if here then some (or_else old 0 + q) else old))
    → (later ≡ false → sum ≡ 0)
    → out ≡ (if here || later then some (or_else old 0 + (if here then q + sum else sum)) else old)
combine true true old q sum e z =
    let eq : or_else old 0 + q + sum ≡ or_else old 0 + (q + sum) = omega arith in e ∙ rw eq refl
combine true false old q sum e z =
    let eq : or_else old 0 + q ≡ or_else old 0 + (q + sum) = omega (arith, z refl) in e ∙ rw eq refl
combine false true old q sum e z = e
combine false false old q sum e z = e

-- The map holds the sums.
add_quantities-get :
    (k : ℕ) (lines : List ExpectedLine) (m : Quantities)
    → get k (add_quantities lines m)
      ≡ (if is_invoiced k lines then some (or_else (get k m) 0 + invoiced k lines) else get k m)
unfolding add_quantities
add_quantities-get k [] m = refl
add_quantities-get k (l ∷ lines) m =
    let n = or_else (get l.product_id m) 0 + l.quantity in
    let ih = add_quantities-get k lines (put l.product_id n m) in
    combine (k == l.product_id) (is_invoiced k lines) (get k m) l.quantity (invoiced k lines)
      (ih ∙ rw (get-add k l.product_id l.quantity m) refl) (not_invoiced k lines)

all_of-get :
    (p : ℕ × ℕ → Bool) (k n : ℕ) (m : Quantities)
    → all_of p m ≡ true
    → get k m ≡ some n
    → p (k, n) ≡ true
all_of-get p k n [] h e = cc
all_of-get p k n ((j, v) ∷ m) h e = at (k == j) refl e (all_of-get p k n m)
  where
    at :
        (b : Bool)
        → (k == j) ≡ b
        → (if b then some v else get k m) ≡ some n
        → (all_of p m ≡ true → get k m ≡ some n → p (k, n) ≡ true)
        → p (k, n) ≡ true
    at true f g rest =
        let eq : k ≡ j = ground arith in let ev = eq_of_some g in rw (eq, sym ev) (ground arith)
    at false f g rest = rest (ground arith) g

moved_from-exact :
    (n : ℕ) (before after : Option (Option ℤ))
    → moved_from n before after ≡ true
    → (b : ℤ) × (before ≡ some (some b)) × (after ≡ some (some (b -ℤ pos n)))
moved_from-exact n (some (some b)) (some (some a)) h =
    let eq = eq_of_parts a (b -ℤ pos n) (ground arith) in (b, refl, rw eq refl)
moved_from-exact n none a h = cc
moved_from-exact n (some none) a h = cc
moved_from-exact n (some (some b)) none h = cc
moved_from-exact n (some (some b)) (some none) h = cc

-- When the movement is verified, the stock of each invoiced product is known before and after, and
-- went down by exactly the units that the lines have of it.
pub verify_stock_movement_exact :
    (lines : List ExpectedLine) (before after : Stock) (k : ℕ)
    → verify_stock_movement lines before after ≡ true
    → is_invoiced k lines ≡ true
    → (b : ℤ) × (get k before ≡ some (some b))
      × (get k after ≡ some (some (b -ℤ pos (invoiced k lines))))
unfolding verify_stock_movement
verify_stock_movement_exact lines before after k h i =
    let found : get k (add_quantities lines []) ≡ some (invoiced k lines) =
      add_quantities-get k lines [] ∙ rw i (ap some (omega arith)) in
    moved_from-exact (invoiced k lines) (get k before) (get k after)
      (all_of-get (has_moved before after) k (invoiced k lines) (add_quantities lines []) h found)
