-- ===== src/DefaultBranch/Tests.antt =====
-- Trying one active branch while the stored one is closed.
use store_kiotviet.Base.{◌≡◌, refl, true, none, some, [], ◌∷◌, ok, has_id}
use store_kiotviet.DefaultBranch.{resolve_default_branch_id}
use store_kiotviet.DefaultBranch.Active.{resolve_default_branch_id-active}

configured_branch : (resolve_default_branch_id (some 3) (8 ∷ 3 ∷ []) none).0 ≡ ok 3
unfolding resolve_default_branch_id
configured_branch = refl

resolve_default_branch_id-active_example : has_id 3 (8 ∷ 3 ∷ []) ≡ true
resolve_default_branch_id-active_example =
    resolve_default_branch_id-active (some 3) (8 ∷ 3 ∷ []) none 3 configured_branch
