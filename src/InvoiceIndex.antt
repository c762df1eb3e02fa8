-- ===== src/InvoiceIndex.antt =====
-- lib/kiotviet/invoice-index.ts: the local copy of KiotViet's invoice ids, filled page by page in
-- the order of the ids. Here: the checkpoint, the check of a page, and the statements.
pub mod Reposition
pub mod Advance
pub mod Slices
pub mod Runs
pub mod FloorScan
pub mod Freshness
mod Tests
use store_kiotviet.Base.{
  ℕ, ◌+◌, ◌-◌, Bool, true, false, ◌&&◌, ◌||◌, not, Option, none, some, List, [], ◌∷◌, ◌++◌,
  if◌then◌else◌, ltb, leb, ◌==◌, is_some, or_else, is_empty, length, keep_if,
}

abbrev pub invoice_index_page_size : ℕ
invoice_index_page_size = 100

pub record InvoiceIndexState : Type 0 where
  pub scanned_count : ℕ
  pub last_invoice_id : Option ℕ
  pub remote_total : Option ℕ
  pub current_as_of : Option ℕ
  pub generation : ℕ

-- The checkpoint and the ids of kiotviet_invoice_index.
pub record Index : Type 0 where
  pub state : InvoiceIndexState
  pub rows : List ℕ

-- A page of GET /invoices; `none` where it is malformed.
pub record Page : Type 0 where
  pub total : Option ℕ
  pub ids : Option (List ℕ)

abbrev pub has_overlap : InvoiceIndexState → Bool
has_overlap s = ltb 0 s.scanned_count && is_some s.last_invoice_id

-- `currentItem` of the next page: the last indexed invoice is read again.
abbrev pub next_position : InvoiceIndexState → ℕ
next_position s = if has_overlap s then s.scanned_count - 1 else s.scanned_count

pub record Next : Type 0 where
  pub scanned : ℕ
  pub last_invoice_id : Option ℕ
  pub total : ℕ
  pub current : Bool

pub data PageResult : Type 0 where
  malformed unordered : PageResult
  stuck mismatch : (total : ℕ) → PageResult
  save : (fresh : List ℕ) → Next → PageResult

-- The last id, unless the ids after `previous` do not increase strictly.
unfoldable pub increasing_from : (previous : ℕ) → List ℕ → Option ℕ
increasing_from previous [] = some previous
increasing_from previous (id ∷ ids) =
    let rest = increasing_from id ids in if leb id previous then none else rest

abbrev pub next_checkpoint : InvoiceIndexState → (total previous : ℕ) → List ℕ → Next
next_checkpoint s total previous fresh = record {
  scanned = s.scanned_count + length fresh;
  last_invoice_id = if is_empty fresh then s.last_invoice_id else some previous;
  total = total;
  current = leb total (s.scanned_count + length fresh);
}

unfoldable pub check_order : InvoiceIndexState → (total : ℕ) → List ℕ → Option ℕ → PageResult
check_order s total fresh none = unordered
check_order s total fresh (some previous) =
    if is_empty fresh && ltb s.scanned_count total
    then stuck total
    else save fresh (next_checkpoint s total previous fresh)

unfoldable pub check_fresh : InvoiceIndexState → (total : ℕ) → List ℕ → PageResult
unfolding check_order increasing_from
check_fresh s total fresh =
    check_order s total fresh (increasing_from (or_else s.last_invoice_id 0) fresh)

unfoldable pub check_overlap : InvoiceIndexState → (total : ℕ) → Option ℕ → List ℕ → PageResult
unfolding check_fresh
check_overlap s total (some last) (id ∷ ids) =
    if id == last then check_fresh s total ids else mismatch total
check_overlap s total _ _ = mismatch total

unfoldable pub check_ids : InvoiceIndexState → (total : ℕ) → List ℕ → PageResult
unfolding check_overlap
check_ids s total ids =
    if has_overlap s then check_overlap s total s.last_invoice_id ids else check_fresh s total ids

unfoldable pub check_page : InvoiceIndexState → Page → PageResult
unfolding check_ids
check_page s p = elim p.total [
  | none ↦ malformed
  | some total ↦ elim p.ids [ none ↦ malformed | some ids ↦ check_ids s total ids ]
]

-- Whether the checkpoint is still the one that was read.
abbrev pub is_same_checkpoint : InvoiceIndexState → InvoiceIndexState → Bool
is_same_checkpoint read now =
    now.generation == read.generation && now.scanned_count == read.scanned_count

abbrev pub saved_state : (started_at : ℕ) → Next → InvoiceIndexState → InvoiceIndexState
saved_state started_at n s = record s {
  scanned_count = n.scanned;
  last_invoice_id = n.last_invoice_id;
  remote_total = some n.total;
  current_as_of = if n.current then some started_at else s.current_as_of;
}

-- savePage: the checkpoint and the rows of the page in one statement.
unfoldable pub save_page :
    (read : InvoiceIndexState) (started_at : ℕ) → Next → List ℕ → Index → Index
save_page read started_at n fresh index =
    if is_same_checkpoint read index.state
    then record { state = saved_state started_at n index.state; rows = fresh ++ index.rows }
    else index

-- resetIndex
unfoldable pub reset_index : (read : InvoiceIndexState) → Index → Index
reset_index read index =
    if index.state.generation == read.generation
    then record index {
      state = record {
        scanned_count = 0;
        last_invoice_id = none;
        remote_total = none;
        current_as_of = none;
        generation = index.state.generation + 1;
      };
    }
    else index

unfoldable pub forget_indexed_invoice : ℕ → Index → Index
forget_indexed_invoice id index = record index {
  rows = keep_if (λ row. not (row == id)) index.rows;
}
