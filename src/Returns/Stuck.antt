-- ===== src/Returns/Stuck.antt =====
-- Which returns reconcileKiotVietReturns of lib/sync/return-sync.ts queues again.
use store_kiotviet.Base.{
  ℕ, ◌≤◌, Bool, ◌&&◌, List, [], ◌∷◌, length, keep_if, any_of, take, All, if◌then◌else◌, ◌==◌, leb,
}
use store_kiotviet.Returns.Row.{RefundRow, is_stuck}

pub record ReturnRow : Type 0 where
  pub return_id : ℕ
  pub updated_at : ℕ
  pub row : RefundRow

unfoldable pub insert_by_updated : ReturnRow → List ReturnRow → List ReturnRow
insert_by_updated x [] = x ∷ []
insert_by_updated x (y ∷ ys) =
    if leb x.updated_at y.updated_at then x ∷ y ∷ ys else y ∷ insert_by_updated x ys

-- `ORDER BY updated_at`; rows of one time stay in their order.
unfoldable pub sort_by_updated : List ReturnRow → List ReturnRow
unfolding insert_by_updated
sort_by_updated [] = []
sort_by_updated (x ∷ xs) = insert_by_updated x (sort_by_updated xs)

-- `LIMIT 20`
unfoldable pub stuck_returns : (now : ℕ) → List ReturnRow → List ReturnRow
unfolding sort_by_updated
stuck_returns now rows =
    take 20 (sort_by_updated (keep_if (λ r. is_stuck now r.updated_at r.row) rows))

-- A row of this return that was updated then, and how many were updated no later.
abbrev pub has_return : (id updated_at : ℕ) → List ReturnRow → Bool
has_return id t rows = any_of (λ r. r.return_id == id && r.updated_at == t) rows

abbrev pub not_later : ℕ → List ReturnRow → ℕ
not_later t rows = length (keep_if (λ r. leb r.updated_at t) rows)

abbrev IsSorted : List ReturnRow → Type 0
IsSorted [] = Unit {0}
IsSorted (x ∷ xs) = All (λ y. x.updated_at ≤ y.updated_at) xs × IsSorted xs
