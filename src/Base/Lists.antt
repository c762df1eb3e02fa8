-- ===== src/Base/Lists.antt =====
-- Lists measured by native numbers, Boolean quantifiers and filters, and association lists.
use Prim.Native.Nat.{ℕ, zero, suc, ◌+◌}
use mathlib.Core.Path.{◌≡◌, refl, subst}
use mathlib.Core.Bool.{Bool, true, false, ◌&&◌, ◌||◌}
use mathlib.Core.Option.{Option, none, some}
use mathlib.Core.List.{List, [], ◌∷◌, ◌++◌, map}
use native.Mathlib.Omega.{arith}
use store_kiotviet.Base.Tests.{◌==◌, if◌then◌else◌}

module _ {ℓ} {A : Type ℓ} where
  abbrev pub length : List A → ℕ
  length [] = 0
  length (x ∷ xs) = suc (length xs)

  pub length-append : (xs ys : List A) → length (xs ++ ys) ≡ length xs + length ys
  length-append [] ys = omega arith
  length-append (x ∷ xs) ys = omega (arith, length-append xs ys)

  -- `items.filter(p)`
  abbrev pub keep_if : (A → Bool) → List A → List A
  keep_if p [] = []
  keep_if p (x ∷ xs) = if p x then x ∷ keep_if p xs else keep_if p xs

  -- `items.some(p)` and `items.every(p)`
  abbrev pub any_of : (A → Bool) → List A → Bool
  any_of p [] = false
  any_of p (x ∷ xs) = p x || any_of p xs

  abbrev pub all_of : (A → Bool) → List A → Bool
  all_of p [] = true
  all_of p (x ∷ xs) = p x && all_of p xs

  abbrev pub is_empty : List A → Bool
  is_empty [] = true
  is_empty (x ∷ xs) = false

-- The sum of `f` over a list, as `reduce((sum, x) => sum + f(x), 0)` computes it.
abbrev pub sum_by {ℓ} : {A : Type ℓ} → (A → ℕ) → List A → ℕ
sum_by f [] = 0
sum_by f (x ∷ xs) = f x + sum_by f xs

abbrev pub All {ℓ κ} : {A : Type ℓ} → (A → Type κ) → List A → Type κ
All P [] = Unit
All P (x ∷ xs) = P x × All P xs

-- A `Set` of ids, as the list of what was added.
abbrev pub has_id : ℕ → List ℕ → Bool
has_id k [] = false
has_id k (j ∷ js) = k == j || has_id k js

-- A `Map` from ids, the latest entry first: `map.get(k)`.
abbrev pub get {ℓ} : {V : Type ℓ} → ℕ → List (ℕ × V) → Option V
get k [] = none
get k ((j, v) ∷ m) = if k == j then some v else get k m

-- `map.set(k, v)`: in place, or at the end.
abbrev pub put {ℓ} : {V : Type ℓ} → ℕ → V → List (ℕ × V) → List (ℕ × V)
put k v [] = (k, v) ∷ []
put k v ((j, w) ∷ m) = if k == j then (k, v) ∷ m else (j, w) ∷ put k v m

pub get-put {ℓ} :
    {V : Type ℓ} (k j : ℕ) (v : V) (m : List (ℕ × V))
    → get j (put k v m) ≡ (if j == k then some v else get j m)
get-put k j v [] = refl
get-put k j v ((i, w) ∷ m) = ground (arith, get-put k j v m)

pub All-imp {ℓ κ μ} :
    {A : Type ℓ} {P : A → Type κ} {Q : A → Type μ} (f : (x : A) → P x → Q x) (xs : List A)
    → All P xs
    → All Q xs
All-imp f [] h = tt
All-imp f (x ∷ xs) h = (f x h.0, All-imp f xs h.1)

pub is_empty-append {ℓ} :
    {A : Type ℓ} (xs ys : List A)
    → is_empty (xs ++ ys) ≡ true
    → (is_empty xs ≡ true) × (is_empty ys ≡ true)
is_empty-append [] ys h = (refl, h)
is_empty-append (x ∷ xs) ys h = cc

pub is_empty→eq {ℓ} : {A : Type ℓ} (xs : List A) → is_empty xs ≡ true → xs ≡ []
is_empty→eq [] h = refl
is_empty→eq (x ∷ xs) h = cc

module _ {ℓ} {A : Type ℓ} where
  -- What is pushed one after another.
  unfoldable pub concat : List (List A) → List A
  concat [] = []
  concat (xs ∷ xss) = xs ++ concat xss

  pub is_empty-concat :
      (xss : List (List A)) → is_empty (concat xss) ≡ true → All (λ xs. is_empty xs ≡ true) xss
  unfolding concat
  is_empty-concat [] h = tt
  is_empty-concat (xs ∷ xss) h =
      let (here, later) = is_empty-append xs (concat xss) h in (here, is_empty-concat xss later)

-- Weaker tests, and tests on parts.
pub any_of-imp {ℓ} :
    {A : Type ℓ} (p q : A → Bool) (xs : List A)
    → ((x : A) → p x ≡ true → q x ≡ true)
    → any_of p xs ≡ true
    → any_of q xs ≡ true
any_of-imp p q [] f h = cc
any_of-imp p q (x ∷ xs) f h = let ih = any_of-imp p q xs f in let here = f x in ground arith

pub all_of-imp {ℓ} :
    {A : Type ℓ} (p q : A → Bool) (xs : List A)
    → ((x : A) → p x ≡ true → q x ≡ true)
    → all_of p xs ≡ true
    → all_of q xs ≡ true
all_of-imp p q [] f h = refl
all_of-imp p q (x ∷ xs) f h = let ih = all_of-imp p q xs f in let here = f x in ground arith

pub all_of-append {ℓ} :
    {A : Type ℓ} (p : A → Bool) (xs ys : List A)
    → all_of p xs ≡ true
    → all_of p ys ≡ true
    → all_of p (xs ++ ys) ≡ true
all_of-append p [] ys h k = k
all_of-append p (x ∷ xs) ys h k = let ih = all_of-append p xs ys in ground arith

pub any_of-keep_if {ℓ} :
    {A : Type ℓ} (p q : A → Bool) (xs : List A)
    → any_of p (keep_if q xs) ≡ true
    → any_of (λ x. q x && p x) xs ≡ true
any_of-keep_if p q [] h = h
any_of-keep_if p q (x ∷ xs) h = let ih = any_of-keep_if p q xs in ground arith

-- `items.slice(0, n)` and `items.slice(n)`
abbrev pub take {ℓ} : {A : Type ℓ} → ℕ → List A → List A
take zero xs = []
take (suc n) [] = []
take (suc n) (x ∷ xs) = x ∷ take n xs

abbrev pub drop {ℓ} : {A : Type ℓ} → ℕ → List A → List A
drop zero xs = xs
drop (suc n) [] = []
drop (suc n) (x ∷ xs) = drop n xs

-- `All` over lists made of other lists.
pub All-join {ℓ κ μ} :
    {A : Type ℓ} (P : A → Type κ) (Q : A → Type μ) (xs : List A)
    → All P xs
    → All Q xs
    → All (λ x. P x × Q x) xs
All-join P Q [] h k = tt
All-join P Q (x ∷ xs) h k = ((h.0, k.0), All-join P Q xs h.1 k.1)

pub All-unmap {ℓ κ μ} :
    {A : Type ℓ} {B : Type κ} (P : B → Type μ) (f : A → B) (xs : List A)
    → All P (map f xs)
    → All (λ x. P (f x)) xs
All-unmap P f [] h = tt
All-unmap P f (x ∷ xs) h = (h.0, All-unmap P f xs h.1)

pub All-map {ℓ κ μ} :
    {A : Type ℓ} {B : Type κ} (P : B → Type μ) (f : A → B) (xs : List A)
    → All (λ x. P (f x)) xs
    → All P (map f xs)
All-map P f [] h = tt
All-map P f (x ∷ xs) h = (h.0, All-map P f xs h.1)

pub All-snoc {ℓ κ} :
    {A : Type ℓ} (P : A → Type κ) (xs : List A) (y : A) → All P xs → P y → All P (xs ++ (y ∷ []))
All-snoc P [] y h k = (k, tt)
All-snoc P (x ∷ xs) y h k = (h.0, All-snoc P xs y h.1 k)

pub All-at {ℓ κ} :
    {A : Type ℓ} (P : A → Type κ) (all xs ys : List A) (y : A)
    → all ≡ xs ++ (y ∷ ys)
    → All P all
    → P y
All-at P all [] ys y e h = let k = subst (All P) e h in k.0
All-at P all (x ∷ xs) ys y e h =
    let k = subst (All P) e h in All-at P (xs ++ (y ∷ ys)) xs ys y refl k.1

pub All-keep_if {ℓ κ} :
    {A : Type ℓ} (P : A → Type κ) (test : A → Bool) (xs : List A)
    → All P xs
    → All P (keep_if test xs)
All-keep_if P test [] h = tt
All-keep_if {A = A} P test (x ∷ xs) h = go (test x) (All-keep_if P test xs h.1)
  where
    go :
        (b : Bool)
        → All P (keep_if test xs)
        → All P (if b then x ∷ keep_if test xs else keep_if test xs)
    go true rest = (h.0, rest)
    go false rest = rest
