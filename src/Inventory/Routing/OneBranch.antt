-- ===== src/Inventory/Routing/OneBranch.antt =====
-- One enabled branch for each location that is written.
use store_kiotviet.Base.{
  ℕ, ◌≡◌, refl, ◌∙◌, ap, subst, Bool, true, false, not, ◌&&◌, List, [], ◌∷◌, ◌++◌, arith, Result,
  ok, err, AppError, keep_if, any_of, is_empty, is_empty→eq, Bool-cases, inl, inr, if◌then◌else◌,
}
use store_kiotviet.Inventory.Routing.{
  BranchLocation, serves, shares, at_pair, existing_row, automatic, map_automatically,
  unmapped_branch, mapped_branch, find_location,
}

-- The mapping is the branch's only enabled one, and no other enabled branch has its location.
pub record IsOnly (branch : ℕ) (r : BranchLocation) (table : List BranchLocation) : Type 0 where
  pub only : keep_if (serves branch) table ≡ r ∷ []
  pub unshared : any_of (shares branch r.location) table ≡ false

-- The rows of the pair are rows of the branch, so none is enabled where the branch has none.
existing_row_disabled :
    (branch location : ℕ) (table : List BranchLocation) (r : BranchLocation)
    → is_empty (keep_if (serves branch) table) ≡ true
    → existing_row (keep_if (at_pair branch location) table) ≡ ok r
    → ⊥
unfolding existing_row
existing_row_disabled branch location [] r h e = cc
existing_row_disabled branch location (b ∷ table) r h e =
    ground (arith, existing_row_disabled branch location table r)

keep_if-append :
    {A : Type 0} (p : A → Bool) (xs ys : List A)
    → keep_if p (xs ++ ys) ≡ keep_if p xs ++ keep_if p ys
keep_if-append p [] ys = refl
keep_if-append p (x ∷ xs) ys = elim (Bool-cases (p x)) [
  | inl e ↦ rw (e, keep_if-append p xs ys)
  | inr e ↦ rw (e, keep_if-append p xs ys)
]

any_of-append :
    {A : Type 0} (p : A → Bool) (xs ys : List A)
    → any_of p xs ≡ false
    → any_of p ys ≡ false
    → any_of p (xs ++ ys) ≡ false
any_of-append p [] ys h k = k
any_of-append p (x ∷ xs) ys h k = ground (arith, any_of-append p xs ys)

serves-automatic : (branch location : ℕ) → serves branch (automatic branch location) ≡ true
serves-automatic branch location = ground arith

shares-automatic :
    (branch location : ℕ) → shares branch location (automatic branch location) ≡ false
shares-automatic branch location = ground arith

abbrev Found : Type 0
Found = Result BranchLocation × List BranchLocation

refused : {A B : Type 0} {a : A} → Path (Result A) (err AppError.mapping) (ok a) → B
refused h = cc

-- What the lookup gives, where it gives a row.
abbrev IsRight : ℕ → Found → Type 0
IsRight branch (ok r, t) = IsOnly branch r t
IsRight branch (err e, t) = Unit {0}

automatic-IsOnly :
    (branch location : ℕ) (table : List BranchLocation)
    → is_empty (keep_if (serves branch) table) ≡ true
    → any_of (shares branch location) table ≡ false
    → IsOnly branch (automatic branch location) (table ++ automatic branch location ∷ [])
automatic-IsOnly branch location table h k = record {
  only =
      keep_if-append (serves branch) table _
      ∙ rw (is_empty→eq _ h, serves-automatic branch location);
  unshared =
      any_of-append (shares branch location) table _ k (rw (shares-automatic branch location));
}

chosen :
    (branch : ℕ) (table : List BranchLocation) (b r : BranchLocation)
    → (if any_of (shares branch b.location) table then err AppError.conflict else ok b) ≡ ok r
    → (b ≡ r) × (any_of (shares branch b.location) table ≡ false)
chosen branch table b r e = ground arith

map_automatically-IsOnly :
    (branch location : ℕ) (table t : List BranchLocation) (r : BranchLocation)
    → is_empty (keep_if (serves branch) table) ≡ true
    → map_automatically branch location table ≡ (ok r, t)
    → IsOnly branch r t
unfolding map_automatically
map_automatically-IsOnly branch location table t r none e =
    let free = any_of (shares branch location) table in
    let fresh = any_of (at_pair branch location) table in
    elim (Bool-cases (not free && not fresh)) [
      | inl g ↦
          let d : Path Found
              (ok (automatic branch location), table ++ automatic branch location ∷ []) (ok r, t) =
            rw g at e in
          subst (λ (x : Found). IsRight branch x) d
            (automatic-IsOnly branch location table none (ground arith))
      | inr g ↦
          let d : Path Found (existing_row (keep_if (at_pair branch location) table), table)
              (ok r, t) =
            rw g at e in
          elim (existing_row_disabled branch location table r none (ap (λ (x : Found). x.0) d)) [ ]
    ]

mapped_branch-IsOnly :
    (branch : ℕ) (table rows : List BranchLocation) (r : BranchLocation)
    → keep_if (serves branch) table ≡ rows
    → mapped_branch branch table rows ≡ ok r
    → IsOnly branch r table
unfolding mapped_branch
mapped_branch-IsOnly branch table [] r q e = cc
mapped_branch-IsOnly branch table (b ∷ []) r q e =
    let (same, free) = chosen branch table b r e in
    subst (λ x. IsOnly branch x table) same (record { only = q; unshared = free })
mapped_branch-IsOnly branch table (b ∷ c ∷ rows) r q e = cc

unmapped_branch-IsOnly :
    (branch : ℕ) (active : List ℕ) (table t : List BranchLocation) (r : BranchLocation)
    → is_empty (keep_if (serves branch) table) ≡ true
    → unmapped_branch branch active table ≡ (ok r, t)
    → IsOnly branch r t
unfolding unmapped_branch
unmapped_branch-IsOnly branch [] table t r none e = refused (ap (λ (x : Found). x.0) e)
unmapped_branch-IsOnly branch (location ∷ []) table t r none e =
    map_automatically-IsOnly branch location table t r none e
unmapped_branch-IsOnly branch (location ∷ other ∷ active) table t r none e =
    refused (ap (λ (x : Found). x.0) e)

-- When the location of a branch is found, with the table as it then is, its row is the only enabled
-- one of the branch and no other enabled branch writes that location.
pub find_location-IsOnly :
    (branch : ℕ) (active : List ℕ) (table t : List BranchLocation) (r : BranchLocation)
    → find_location branch active table ≡ (ok r, t)
    → IsOnly branch r t
unfolding find_location
find_location-IsOnly branch active table t r e =
    elim (Bool-cases (is_empty (keep_if (serves branch) table))) [
      | inl g ↦ unmapped_branch-IsOnly branch active table t r g (rw g at e)
      | inr g ↦
          let d : Path Found (mapped_branch branch table (keep_if (serves branch) table), table)
              (ok r, t) =
            rw g at e in
          subst (IsOnly branch r) (ap (λ (x : Found). x.1) d)
            (mapped_branch-IsOnly branch table _ r refl (ap (λ (x : Found). x.0) d))
    ]
