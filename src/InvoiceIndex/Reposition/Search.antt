-- ===== src/InvoiceIndex/Reposition/Search.antt =====
-- The binary search ends within its budget, and the id that it returns is not above the last one.
use store_kiotviet.Base.{
  ℕ, zero, suc, ◌+◌, ◌-◌, ◌*◌, ◌/◌, ◌≤◌, ◌<◌, ◌≡◌, ◌≢◌, refl, sym, ◌∙◌, inl, inr, Bool, true, false,
  Option, none, some, Result, ok, err, if◌then◌else◌, ltb, leb, ltb→lt, or_else, arith, Bool-cases,
}
use store_kiotviet.InvoiceIndex.{InvoiceIndexState}
use store_kiotviet.InvoiceIndex.Reposition.{
  Found, over_budget, position, after_probe, search, reposition_index,
}

-- The number of positions that a number of requests can tell apart.
abbrev pub reach : ℕ → ℕ
reach zero = 1
reach (suc n) = 2 * reach n

after_probe-budget :
    (last : ℕ) (r : Result (Option ℕ)) (right : ℕ → Found) (left : Found)
    → ((id : ℕ) → right id ≢ over_budget)
    → left ≢ over_budget
    → after_probe last r right left ≢ over_budget
unfolding after_probe
after_probe-budget last (err e) right left f g = λ h. cc
after_probe-budget last (ok none) right left f g = λ h. cc
after_probe-budget last (ok (some id)) right left f g = go (leb id last)
  where
    go : (b : Bool) → (if b then right id else left) ≢ over_budget
    go true = f id
    go false = g

-- One round of the loop, and its end.
abbrev pub round : ℕ → (ℕ → Result (Option ℕ)) → (last low high : ℕ) → Option ℕ → Found
round n id_at last low high below =
    after_probe last (id_at ((low + high) / 2))
      (λ id. search n id_at last ((low + high) / 2 + 1) high (some id))
      (search n id_at last low ((low + high) / 2) below)

choose : (b : Bool) (x y : Found) → b ≡ true → elim b [ true ↦ x | false ↦ y ] ≡ x
choose true x y h = refl
choose false x y h = cc

choose_not : (b : Bool) (x y : Found) → b ≡ false → elim b [ true ↦ x | false ↦ y ] ≡ y
choose_not true x y h = cc
choose_not false x y h = refl

pub search-round :
    (n : ℕ) (id_at : ℕ → Result (Option ℕ)) (last low high : ℕ) (below : Option ℕ)
    → ltb low high ≡ true
    → search (suc n) id_at last low high below ≡ round n id_at last low high below
unfolding search
search-round n id_at last low high below h = choose (ltb low high) _ _ h

pub search-end :
    (n : ℕ) (id_at : ℕ → Result (Option ℕ)) (last low high : ℕ) (below : Option ℕ)
    → ltb low high ≡ false
    → search n id_at last low high below ≡ position low below
unfolding search
search-end zero id_at last low high below h = choose_not (ltb low high) _ _ h
search-end (suc n) id_at last low high below h = choose_not (ltb low high) _ _ h

search-budget :
    (n : ℕ) (id_at : ℕ → Result (Option ℕ)) (last low high : ℕ) (below : Option ℕ)
    → high - low < reach n
    → search n id_at last low high below ≢ over_budget
search-budget zero id_at last low high below h =
    rw (search-end zero id_at last low high below (ground arith)) (λ e. cc)
search-budget (suc n) id_at last low high below h = elim (Bool-cases (ltb low high)) [
  | inl b ↦
      let wide = ltb→lt low high b in
      rw (search-round n id_at last low high below b) (
        after_probe-budget last (id_at ((low + high) / 2)) _ _
          (λ id. search-budget n id_at last ((low + high) / 2 + 1) high (some id) (omega arith))
          (search-budget n id_at last low ((low + high) / 2) below (omega arith)))
  | inr b ↦ rw (search-end (suc n) id_at last low high below b) (λ e. cc)
]

-- Whatever KiotViet answers, the search over fewer than 2^22 invoices ends within its budget of 22
-- requests.
pub reposition_index_budget :
    (id_at : ℕ → Result (Option ℕ)) (s : InvoiceIndexState) (total : ℕ)
    → total < 4194304
    → reposition_index id_at s total ≢ over_budget
unfolding reposition_index
reposition_index_budget id_at s total h =
    search-budget 22 id_at (or_else s.last_invoice_id 0) 0 total none (omega arith)

-- The id before a position: none at the start, else one that is not above the last.
abbrev pub IsBelow : (last low : ℕ) → Option ℕ → Type 0
IsBelow last low none = low ≡ 0
IsBelow last low (some id) = id ≤ last

after_probe-below :
    (last l : ℕ) (o : Option ℕ) (r : Result (Option ℕ)) (right : ℕ → Found) (left : Found)
    → after_probe last r right left ≡ position l o
    → ((id : ℕ) → id ≤ last → right id ≡ position l o → IsBelow last l o)
    → (left ≡ position l o → IsBelow last l o)
    → IsBelow last l o
unfolding after_probe
after_probe-below last l o (err e) right left h f g = cc
after_probe-below last l o (ok none) right left h f g = cc
after_probe-below last l o (ok (some id)) right left h f g = elim (Bool-cases (leb id last)) [
  | inl b ↦ f id (ground arith) (ground arith)
  | inr b ↦ g (ground arith)
]

search-over :
    (id_at : ℕ → Result (Option ℕ)) (last low high : ℕ) (below : Option ℕ)
    → ltb low high ≡ true
    → search zero id_at last low high below ≡ over_budget
unfolding search
search-over id_at last low high below h = choose (ltb low high) _ _ h

ended :
    (last low l : ℕ) (below o : Option ℕ)
    → position low below ≡ position l o
    → IsBelow last low below
    → IsBelow last l o
ended last low l none none h k = let e : low ≡ l = cc in sym e ∙ k
ended last low l none (some id) h k = cc
ended last low l (some id) none h k = cc
ended last low l (some id) (some j) h k = let e : id ≡ j = cc in omega (arith, e, k)

pub search-below :
    (n : ℕ) (id_at : ℕ → Result (Option ℕ)) (last low high : ℕ) (below : Option ℕ) (l : ℕ)
    (o : Option ℕ)
    → search n id_at last low high below ≡ position l o
    → IsBelow last low below
    → IsBelow last l o
search-below zero id_at last low high below l o h k = elim (Bool-cases (ltb low high)) [
  | inl b ↦ let over = search-over id_at last low high below b in cc
  | inr b ↦ ended last low l below o (sym (search-end zero id_at last low high below b) ∙ h) k
]
search-below (suc n) id_at last low high below l o h k = elim (Bool-cases (ltb low high)) [
  | inl b ↦
      after_probe-below last l o (id_at ((low + high) / 2)) _ _
        (sym (search-round n id_at last low high below b) ∙ h)
        (λ id le e. search-below n id_at last ((low + high) / 2 + 1) high (some id) l o e le)
        (λ e. search-below n id_at last low ((low + high) / 2) below l o e k)
  | inr b ↦ ended last low l below o (sym (search-end (suc n) id_at last low high below b) ∙ h) k
]
