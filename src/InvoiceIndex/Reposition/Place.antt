-- ===== src/InvoiceIndex/Reposition/Place.antt =====
-- On a sorted list that does not change the binary search finds the position.
use store_kiotviet.Base.{
  ℕ, zero, suc, ◌+◌, ◌-◌, ◌/◌, ◌≤◌, ◌<◌, ◌≡◌, refl, subst, sym, ◌∙◌, inl, inr, Bool, true, false,
  Option, none, some, List, [], ◌∷◌, Result, ok, if◌then◌else◌, ltb, leb, ltb→lt, or_else, arith,
  Bool-cases, length,
}
use store_kiotviet.InvoiceIndex.{InvoiceIndexState}
use store_kiotviet.InvoiceIndex.Reposition.{Found, position, after_probe, search, reposition_index}
use store_kiotviet.InvoiceIndex.Reposition.Search.{reach, search-round, search-end}

-- The remote list, its ids in strictly increasing order above a bound.
abbrev pub Ascending : ℕ → List ℕ → Type 0
Ascending bound [] = Unit
Ascending bound (id ∷ ids) = (bound < id) × Ascending id ids

abbrev pub id_at_position : List ℕ → ℕ → Option ℕ
id_at_position [] p = none
id_at_position (id ∷ ids) zero = some id
id_at_position (id ∷ ids) (suc p) = id_at_position ids p

-- How many ids are not above the last one.
abbrev pub count_up_to : ℕ → List ℕ → ℕ
count_up_to last [] = 0
count_up_to last (id ∷ ids) = if leb id last then 1 + count_up_to last ids else count_up_to last ids

count_above : (last b : ℕ) (ids : List ℕ) → Ascending b ids → last ≤ b → count_up_to last ids ≡ 0
count_above last b [] h k = refl
count_above last b (id ∷ ids) h k =
    let lt = h.0 in let ih = count_above last id ids h.1 in ground arith

count_le_length : (last : ℕ) (ids : List ℕ) → count_up_to last ids ≤ length ids
count_le_length last [] = omega arith
count_le_length last (id ∷ ids) = let ih = count_le_length last ids in ground arith

-- The id in the middle says on which side the position is.
id_at-side :
    (last b : ℕ) (ids : List ℕ) (p id : ℕ)
    → Ascending b ids
    → id_at_position ids p ≡ some id
    → leb id last ≡ ltb p (count_up_to last ids)
id_at-side last b [] p id h e = cc
id_at-side last b (x ∷ ids) zero id h e =
    let above = count_above last x ids h.1 in let same : x ≡ id = cc in ground arith
id_at-side last b (x ∷ ids) (suc p) id h e =
    let ih = id_at-side last x ids p id h.1 e in
    let above = count_above last x ids h.1 in ground arith

id_at-defined :
    (ids : List ℕ) (p : ℕ) → p < length ids → (id : ℕ) × (id_at_position ids p ≡ some id)
id_at-defined [] p h = absurd (omega arith)
id_at-defined (id ∷ ids) zero h = (id, refl)
id_at-defined (id ∷ ids) (suc p) h = id_at-defined ids p (omega arith)

-- With a list that does not change during the search, the position is found.
abbrev pub IdBefore : List ℕ → ℕ → Option ℕ → Type 0
IdBefore ids low below = (0 < low → below ≡ id_at_position ids (low - 1)) × (low ≡ 0 → below ≡ none)

after_probe-some :
    (last id : ℕ) (right : ℕ → Found) (left : Found) (r : Result (Option ℕ))
    → r ≡ ok (some id)
    → after_probe last r right left ≡ (if leb id last then right id else left)
unfolding after_probe
after_probe-some last id right left r e = rw e refl

passed : (a b : ℕ) → ltb a b ≡ true → a + 1 ≤ b
passed a b h = ground arith

not_passed : (a b : ℕ) → ltb a b ≡ false → b ≤ a
not_passed a b h = ground arith

id_before :
    (ids : List ℕ) (middle id : ℕ)
    → id_at_position ids middle ≡ some id
    → IdBefore ids (middle + 1) (some id)
id_before ids middle id e = (
  λ h. let same : middle + 1 - 1 ≡ middle = omega arith in rw same (sym e),
  λ h. absurd (omega arith),
)

then_is {ℓ} : {A : Type ℓ} (b : Bool) (x y z : A) → x ≡ (if b then y else z) → b ≡ true → x ≡ y
then_is true x y z h e = h
then_is false x y z h e = cc

else_is {ℓ} : {A : Type ℓ} (b : Bool) (x y z : A) → x ≡ (if b then y else z) → b ≡ false → x ≡ z
else_is true x y z h e = cc
else_is false x y z h e = h

search-found :
    (n : ℕ) (ids : List ℕ) (b last low high : ℕ) (below : Option ℕ)
    → Ascending b ids
    → high - low < reach n
    → low ≤ count_up_to last ids
    → count_up_to last ids ≤ high
    → high ≤ length ids
    → IdBefore ids low below
    → (o : Option ℕ) × (search n (λ p. ok (id_at_position ids p)) last low high below
        ≡ position (count_up_to last ids) o)
      × IdBefore ids (count_up_to last ids) o
search-found zero ids b last low high below up h l r t k =
    let e : low ≡ count_up_to last ids = omega arith in
    (
      below,
      search-end zero _ last low high below (ground arith) ∙ rw e refl,
      subst (λ x. IdBefore ids x below) e k,
    )
search-found (suc n) ids b last low high below up h l r t k = elim (Bool-cases (ltb low high)) [
  | inl w ↦
      let middle = (low + high) / 2 in
      let wide = ltb→lt low high w in
      let (id, e) = id_at-defined ids middle (omega arith) in
      let side = id_at-side last b ids middle id up e in
      let probed =
        search-round n (λ p. ok (id_at_position ids p)) last low high below w
        ∙ after_probe-some last id _ _ (ok (id_at_position ids middle)) (rw e refl) in
      elim (Bool-cases (leb id last)) [
        | inl right ↦
            let (o, f, g) =
              search-found n ids b last (middle + 1) high (some id) up (omega arith)
                (passed middle _ (sym side ∙ right)) r t (id_before ids middle id e) in
            (o, then_is (leb id last) _ _ _ probed right ∙ f, g)
        | inr left ↦
            let (o, f, g) =
              search-found n ids b last low middle below up (omega arith) l
                (not_passed middle _ (sym side ∙ left)) (omega arith) k in
            (o, else_is (leb id last) _ _ _ probed left ∙ f, g)
      ]
  | inr w ↦
      let e : low ≡ count_up_to last ids = ground arith in
      (
        below,
        search-end (suc n) _ last low high below w ∙ rw e refl,
        subst (λ x. IdBefore ids x below) e k,
      )
]

-- Fewer than 2^22 invoices in increasing order of their ids: the search returns the number of
-- invoices up to the checkpoint, with the id that stands directly before that position.
pub reposition_index_found :
    (ids : List ℕ) (s : InvoiceIndexState)
    → Ascending 0 ids
    → length ids < 4194304
    → let last = or_else s.last_invoice_id 0 in
      (o : Option ℕ) × (reposition_index (λ p. ok (id_at_position ids p)) s (length ids)
        ≡ position (count_up_to last ids) o)
      × IdBefore ids (count_up_to last ids) o
unfolding reposition_index
reposition_index_found ids s up h =
    search-found 22 ids 0 (or_else s.last_invoice_id 0) 0 (length ids) none up (omega arith)
      (omega arith) (count_le_length (or_else s.last_invoice_id 0) ids) (omega arith)
      (λ l. absurd (omega arith), λ e. refl)
