-- ===== src/DefaultBranch/Active.antt =====
-- The branch that is found is active.
use store_kiotviet.Base.{ℕ, ◌≡◌, refl, true, Option, none, some, List, [], ◌∷◌, ok, has_id, arith}
use store_kiotviet.DefaultBranch.{only_branch, initialize_branch, resolve_default_branch_id}

only_branch-active :
    (active : List ℕ) (stored : Option ℕ) (id : ℕ)
    → (only_branch active stored).0 ≡ ok id
    → has_id id active ≡ true
unfolding only_branch initialize_branch
only_branch-active [] stored id h = cc
only_branch-active (b ∷ []) none id h = ground arith
only_branch-active (b ∷ []) (some k) id h = ground arith
only_branch-active (b ∷ c ∷ rest) stored id h = cc

-- The branch that is resolved is one of the active branches.
pub resolve_default_branch_id-active :
    (configured : Option ℕ) (active : List ℕ) (stored : Option ℕ) (id : ℕ)
    → (resolve_default_branch_id configured active stored).0 ≡ ok id
    → has_id id active ≡ true
unfolding resolve_default_branch_id
resolve_default_branch_id-active none active stored id h = only_branch-active active stored id h
resolve_default_branch_id-active (some k) active stored id h =
    ground (arith, only_branch-active active stored id)

-- With a single active branch the resolution never fails and gives that branch, whatever is
-- configured or stored.
pub resolve_default_branch_id_single :
    (configured : Option ℕ) (branch : ℕ) (stored : Option ℕ)
    → (resolve_default_branch_id configured (branch ∷ []) stored).0 ≡ ok branch
unfolding resolve_default_branch_id only_branch initialize_branch
resolve_default_branch_id_single none branch none = refl
resolve_default_branch_id_single none branch (some k) = ground arith
resolve_default_branch_id_single (some c) branch none = ground arith
resolve_default_branch_id_single (some c) branch (some k) = ground arith
