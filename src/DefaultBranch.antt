-- ===== src/DefaultBranch.antt =====
-- resolveDefaultBranchId of lib/sync/default-branch.ts: the KiotViet branch that new orders go to.
pub mod Active
mod Tests
use store_kiotviet.Base.{
  ℕ, Bool, true, false, not, ◌||◌, Option, none, some, List, [], ◌∷◌, Result, ok, err, AppError,
  if◌then◌else◌, has_id, ◌==◌,
}

-- The stored id is no longer active, or there is none.
abbrev pub is_stale : List ℕ → Option ℕ → Bool
is_stale active none = true
is_stale active (some id) = not (has_id id active)

abbrev pub read_back : List ℕ → Option ℕ → Result ℕ
read_back active none = err AppError.permanent
read_back active (some id) = if has_id id active then ok id else err AppError.permanent

-- The insert or update of the stored id, and what is read where it changes nothing.
unfoldable pub initialize_branch : List ℕ → ℕ → Option ℕ → Result ℕ × Option ℕ
initialize_branch active branch stored =
    if is_stale active stored then (ok branch, some branch) else (read_back active stored, stored)

-- No configured branch that is active: only a single active branch can be meant.
unfoldable pub only_branch : List ℕ → Option ℕ → Result ℕ × Option ℕ
unfolding initialize_branch
only_branch [] stored = (err AppError.permanent, stored)
only_branch (branch ∷ []) stored = initialize_branch (branch ∷ []) branch stored
only_branch (branch ∷ other ∷ rest) stored = (err AppError.permanent, stored)

-- `configured` is the id in the settings that the caller knows, `none` where it is no positive
-- integer; `stored` is the positive id in the database when it is written; `active` are KiotViet's
-- active branches.
unfoldable pub resolve_default_branch_id :
    (configured : Option ℕ) (active : List ℕ) (stored : Option ℕ) → Result ℕ × Option ℕ
unfolding only_branch
resolve_default_branch_id none active stored = only_branch active stored
resolve_default_branch_id (some id) active stored =
    if has_id id active then (ok id, stored) else only_branch active stored
