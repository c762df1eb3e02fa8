-- ===== src/InvoiceIndex/Reposition.antt =====
-- repositionIndex: the binary search for the first remote position behind the last indexed id, and
-- the statement that moves the checkpoint there.
pub mod Search
pub mod Place
use store_kiotviet.Base.{
  ℕ, zero, suc, ◌+◌, ◌-◌, ◌*◌, ◌/◌, Bool, true, false, Option, none, some, Result, ok, err,
  AppError, if◌then◌else◌, ltb, leb, or_else,
}
use store_kiotviet.InvoiceIndex.{InvoiceIndexState, Index, is_same_checkpoint}

abbrev pub reposition_max_requests : ℕ
reposition_max_requests = 22

-- The end of the search: the position and the id before it, or why it is not known.
pub data Found : Type 0 where
  over_budget no_invoice failed : Found
  position : (low : ℕ) (below : Option ℕ) → Found

-- What a probe says: go right of the position, or left of it.
unfoldable pub after_probe : (last : ℕ) → Result (Option ℕ) → (ℕ → Found) → Found → Found
after_probe last (err e) right left = failed
after_probe last (ok none) right left = no_invoice
after_probe last (ok (some id)) right left = if leb id last then right id else left

-- The loop, with the requests that are left; `id_at` is the reply for a position.
unfoldable pub search :
    (requests : ℕ) (id_at : ℕ → Result (Option ℕ)) (last low high : ℕ) (below : Option ℕ) → Found
unfolding after_probe
search zero id_at last low high below = elim (ltb low high) [
  | true ↦ over_budget
  | false ↦ position low below
]
search (suc requests) id_at last low high below = elim (ltb low high) [
  | true ↦
      let middle = (low + high) / 2 in
      after_probe last (id_at middle) (λ id. search requests id_at last (middle + 1) high (some id))
        (search requests id_at last low middle below)
  | false ↦ position low below
]

unfoldable pub reposition_index :
    (id_at : ℕ → Result (Option ℕ)) → InvoiceIndexState → (total : ℕ) → Found
unfolding search
reposition_index id_at s total =
    search reposition_max_requests id_at (or_else s.last_invoice_id 0) 0 total none

abbrev before_position : ℕ → Option ℕ → Option ℕ
before_position low below = if ltb 0 low then below else none

-- The statement: it moves the checkpoint, unless another runner did.
unfoldable pub move_checkpoint :
    (read : InvoiceIndexState) (total low : ℕ) (below : Option ℕ) → Index → Index
move_checkpoint read total low below index =
    if is_same_checkpoint read index.state
    then record index {
      state = record index.state {
        scanned_count = low;
        last_invoice_id = before_position low below;
        remote_total = some total;
      };
    }
    else index
