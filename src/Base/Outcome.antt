-- ===== src/Base/Outcome.antt =====
-- Exceptions as values: the error classes of lib/errors.ts, and the monad that a `throw` runs in.
use mathlib.Core.Path.{◌≡◌, refl}
use mathlib.Core.Bool.{Bool, true, false}
use mathlib.Core.List.{List, [], ◌∷◌}

-- The subclasses of `AppError`; `plain` is any other `Error`.
pub data AppError : Type 0 where
  api authentication rate_limit validation mapping conflict retryable uncertain permanent plain :
      AppError

-- Errors that retrying cannot fix; a job that fails with one goes to manual review.
unfoldable pub is_manual_review_error : AppError → Bool
is_manual_review_error AppError.permanent = true
is_manual_review_error AppError.mapping = true
is_manual_review_error AppError.conflict = true
is_manual_review_error AppError.validation = true
is_manual_review_error _ = false

-- What a function that may throw returns.
pub data Result {ℓ} (A : Type ℓ) : Type ℓ where
  err : AppError → Result A
  ok : A → Result A

abbrev pub and_then {ℓ κ} : {A : Type ℓ} {B : Type κ} → (A → Result B) → Result A → Result B
and_then next (err thrown) = err thrown
and_then next (ok value) = next value

infixl 5 ◌>>=◌ ◌>>◌
abbrev pub ◌>>=◌ {ℓ κ} : {A : Type ℓ} {B : Type κ} (m : Result A) (next : A → Result B) → Result B
m >>= next = and_then next m

abbrev pub ◌>>◌ {κ} : {B : Type κ} (m : Result (Unit {0})) (after : Result B) → Result B
m >> after = and_then (λ _. after) m

abbrev pub throw_if : Bool → AppError → Result (Unit {0})
throw_if true e = err e
throw_if false e = ok tt

-- A chain that did not throw: its first part gave a value, and the rest went on from there.
pub >>=-eq-ok {ℓ κ} :
    {A : Type ℓ} {B : Type κ} (m : Result A) (next : A → Result B) {b : B}
    → (m >>= next) ≡ ok b
    → (value : A) × (m ≡ ok value) × (next value ≡ ok b)
>>=-eq-ok (err thrown) next h = cc
>>=-eq-ok (ok value) next h = (value, refl, h)

-- `items.map(f)` where `f` may throw.
abbrev pub map_result {ℓ κ} : {A : Type ℓ} {B : Type κ} → (A → Result B) → List A → Result (List B)
map_result f [] = ok []
map_result f (x ∷ xs) = f x >>= λ y. map_result f xs >>= λ ys. ok (y ∷ ys)

pub ok-injective {ℓ} : {A : Type ℓ} {a b : A} → ok a ≡ ok b → a ≡ b
ok-injective h = cc

pub unthrown : (b : Bool) (e : AppError) {u : Unit {0}} → throw_if b e ≡ ok u → b ≡ false
unthrown true e h = cc
unthrown false e h = refl
