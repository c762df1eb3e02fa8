-- ===== src/OrderSync/Race/Jobs.antt =====
-- The requests under way and the orders in hand, over a list of jobs.
use store_kiotviet.Base.{
  ℕ, ◌+◌, ◌≤◌, ◌≡◌, refl, subst, true, List, [], ◌∷◌, ◌++◌, arith, length, has_id,
}
use store_kiotviet.OrderSync.Race.{Phase, preparing, sending, orphaned, accepted}

-- Requests under way.
abbrev pub under_way : Phase → ℕ
under_way (preparing t) = 0
under_way (sending t) = 1
under_way orphaned = 1
under_way (accepted t id) = 0

abbrev pub requests : List Phase → ℕ
requests [] = 0
requests (p ∷ ps) = under_way p + requests ps

-- An order that a job has in hand exists.
abbrev pub Exists : List ℕ → List Phase → Type 0
Exists orders [] = Unit
Exists orders (accepted t id ∷ ps) = (has_id id orders ≡ true) × Exists orders ps
Exists orders (p ∷ ps) = Exists orders ps

pub requests-append : (xs ys : List Phase) → requests (xs ++ ys) ≡ requests xs + requests ys
requests-append [] ys = omega arith
requests-append (x ∷ xs) ys = omega (arith, requests-append xs ys)

pub requests_at :
    (ps xs ys : List Phase) (p : Phase)
    → ps ≡ xs ++ (p ∷ ys)
    → requests ps ≡ requests xs + under_way p + requests ys
requests_at ps xs ys p e = rw (e, requests-append xs (p ∷ ys)) (omega arith)

pub Exists-append :
    (os : List ℕ) (xs ys : List Phase) → Exists os xs → Exists os ys → Exists os (xs ++ ys)
Exists-append os [] ys h k = k
Exists-append os (preparing t ∷ xs) ys h k = Exists-append os xs ys h k
Exists-append os (sending t ∷ xs) ys h k = Exists-append os xs ys h k
Exists-append os (orphaned ∷ xs) ys h k = Exists-append os xs ys h k
Exists-append os (accepted t id ∷ xs) ys h k = (h.0, Exists-append os xs ys h.1 k)

pub Exists-left : (os : List ℕ) (xs ys : List Phase) → Exists os (xs ++ ys) → Exists os xs
Exists-left os [] ys h = tt
Exists-left os (preparing t ∷ xs) ys h = Exists-left os xs ys h
Exists-left os (sending t ∷ xs) ys h = Exists-left os xs ys h
Exists-left os (orphaned ∷ xs) ys h = Exists-left os xs ys h
Exists-left os (accepted t id ∷ xs) ys h = (h.0, Exists-left os xs ys h.1)

pub Exists-right : (os : List ℕ) (xs ys : List Phase) → Exists os (xs ++ ys) → Exists os ys
Exists-right os [] ys h = h
Exists-right os (preparing t ∷ xs) ys h = Exists-right os xs ys h
Exists-right os (sending t ∷ xs) ys h = Exists-right os xs ys h
Exists-right os (orphaned ∷ xs) ys h = Exists-right os xs ys h
Exists-right os (accepted t id ∷ xs) ys h = Exists-right os xs ys h.1

pub Exists-more : (k : ℕ) (os : List ℕ) (ps : List Phase) → Exists os ps → Exists (k ∷ os) ps
Exists-more k os [] h = tt
Exists-more k os (preparing t ∷ ps) h = Exists-more k os ps h
Exists-more k os (sending t ∷ ps) h = Exists-more k os ps h
Exists-more k os (orphaned ∷ ps) h = Exists-more k os ps h
Exists-more k os (accepted t id ∷ ps) h = (ground arith, Exists-more k os ps h.1)

-- The jobs of a split list, each kind of change.
pub fewer_at :
    (ps xs ys : List Phase) (p : Phase) → ps ≡ xs ++ (p ∷ ys) → requests (xs ++ ys) ≤ requests ps
fewer_at ps xs ys p e = omega (arith, requests_at ps xs ys p e, requests-append xs ys)

pub Exists-at :
    (os : List ℕ) (ps xs ys : List Phase) (p : Phase)
    → ps ≡ xs ++ (p ∷ ys)
    → Exists os ps
    → Exists os xs × Exists os (p ∷ ys)
Exists-at os ps xs ys p e h =
    let h' = subst (Exists os) e h in
    (Exists-left os xs (p ∷ ys) h', Exists-right os xs (p ∷ ys) h')

pub has_id-more : (k j : ℕ) (os : List ℕ) → has_id k os ≡ true → has_id k (j ∷ os) ≡ true
has_id-more k j os h = ground arith

pub length-zero : (os : List ℕ) → length os ≡ 0 → os ≡ []
length-zero [] h = refl
length-zero (k ∷ os) h = absurd (omega arith)

pub sole : (id : ℕ) (os : List ℕ) → has_id id os ≡ true → length os ≤ 1 → os ≡ id ∷ []
sole id [] h l = cc
sole id (k ∷ []) h l = ground arith
sole id (k ∷ j ∷ os) h l = absurd (omega arith)
