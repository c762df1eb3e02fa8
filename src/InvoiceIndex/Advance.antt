-- ===== src/InvoiceIndex/Advance.antt =====
-- advanceInvoiceIndex: the loop over the pages, with what other runners do to the index meanwhile.
use store_kiotviet.Base.{
  ℕ, ◌+◌, ◌≡◌, refl, arith, Bool, true, false, ◌&&◌, Option, none, some, List, [], ◌∷◌, Result, ok,
  err, if◌then◌else◌, Bool-cases, inl, inr,
}
use store_kiotviet.InvoiceIndex.{
  InvoiceIndexState, Index, Page, Next, PageResult, malformed, unordered, stuck, mismatch, save,
  next_position, check_page, is_same_checkpoint, save_page, reset_index,
}
use store_kiotviet.InvoiceIndex.Reposition.{
  Found, over_budget, no_invoice, failed, position, reposition_index, move_checkpoint,
}

-- One turn of the loop: the clock, the answers for a page and for single positions, and the
-- statements of other runners before this one's.
pub record Turn : Type 0 where
  pub started_at : ℕ
  pub page : (position : ℕ) → Result Page
  pub id_at : (position : ℕ) → Result (Option ℕ)
  pub others : Index → Index

pub record InvoiceIndexProgress : Type 0 where
  pub current : Bool
  pub current_as_of : Option ℕ
  pub scanned : ℕ
  pub total : Option ℕ
  pub pages : ℕ

abbrev Run : Type 0
Run = InvoiceIndexProgress × Index

-- Not current, as the checkpoint has it.
abbrev stopped : InvoiceIndexState → ℕ → InvoiceIndexProgress
stopped s pages = record {
  current = false;
  current_as_of = s.current_as_of;
  scanned = s.scanned_count;
  total = s.remote_total;
  pages = pages;
}

abbrev pub confirmed : Next → ℕ → ℕ → InvoiceIndexProgress
confirmed n started_at pages = record {
  current = true;
  current_as_of = some started_at;
  scanned = n.scanned;
  total = some n.total;
  pages = pages;
}

after_search : (total pages : ℕ) → InvoiceIndexState → Index → (Index → Run) → Found → Run
after_search total pages s index more (position low below) =
    more (move_checkpoint s total low below index)
after_search total pages s index more _ = (stopped s pages, index)

after_save : Turn → ℕ → InvoiceIndexState → Index → (Index → Run) → List ℕ → Next → Run
after_save turn pages s index more fresh n =
    if n.current && is_same_checkpoint s index.state
    then (confirmed n turn.started_at pages, save_page s turn.started_at n fresh index)
    else more (save_page s turn.started_at n fresh index)

after_check : Turn → ℕ → InvoiceIndexState → Index → (Index → Run) → PageResult → Run
unfolding after_search after_save
after_check turn pages s index more malformed = (stopped s pages, index)
after_check turn pages s index more (stuck total) =
    (record (stopped s pages) { total = some total }, index)
after_check turn pages s index more unordered = (
  record { current = false; current_as_of = none; scanned = 0; total = none; pages = pages },
  reset_index s index,
)
after_check turn pages s index more (mismatch total) =
    after_search total pages s index more (reposition_index turn.id_at s total)
after_check turn pages s index more (save fresh n) = after_save turn pages s index more fresh n

after_page : Turn → ℕ → InvoiceIndexState → Index → (Index → Run) → Result Page → Run
unfolding after_check
after_page turn pages s index more (err e) = (stopped s pages, index)
after_page turn pages s index more (ok page) =
    after_check turn (pages + 1) s (turn.others index) more (check_page s page)

-- The turns are as many as the pages and the deadline allow; the checkpoint is read again after
-- every statement.
unfoldable pub advance_from :
    (turns : List Turn) (pages : ℕ) → InvoiceIndexState → Index → InvoiceIndexProgress × Index
unfolding after_page
advance_from [] pages s index = (stopped s pages, index)
advance_from (turn ∷ turns) pages s index =
    after_page turn pages s index (λ i. advance_from turns (pages + 1) i.state i)
      (turn.page (next_position s))

unfoldable pub advance_invoice_index : List Turn → Index → InvoiceIndexProgress × Index
unfolding advance_from
advance_invoice_index turns index = advance_from turns 0 index.state index

-- What a run that ends as current says of the checkpoint that it leaves.
pub record IsConfirmed (run : InvoiceIndexProgress × Index) : Type 0 where
  pub as_of : run.1.state.current_as_of ≡ run.0.current_as_of
  pub total : run.1.state.remote_total ≡ run.0.total
  pub scanned : run.1.state.scanned_count ≡ run.0.scanned

after_search-IsConfirmed :
    (total pages : ℕ) (s : InvoiceIndexState) (index : Index) (more : Index → Run) (f : Found)
    → ((i : Index) → (more i).0.current ≡ true → IsConfirmed (more i))
    → (after_search total pages s index more f).0.current ≡ true
    → IsConfirmed (after_search total pages s index more f)
unfolding after_search
after_search-IsConfirmed total pages s index more (position low below) ih h = ih _ h
after_search-IsConfirmed total pages s index more over_budget ih h = cc
after_search-IsConfirmed total pages s index more no_invoice ih h = cc
after_search-IsConfirmed total pages s index more failed ih h = cc

saved-IsConfirmed :
    (turn : Turn) (pages : ℕ) (s : InvoiceIndexState) (index : Index) (fresh : List ℕ) (n : Next)
    → n.current ≡ true
    → is_same_checkpoint s index.state ≡ true
    → IsConfirmed (confirmed n turn.started_at pages, save_page s turn.started_at n fresh index)
unfolding save_page
saved-IsConfirmed turn pages s index fresh n c e = record {
  as_of = rw (e, c) refl;
  total = rw e refl;
  scanned = rw e refl;
}

after_save-IsConfirmed :
    (turn : Turn) (pages : ℕ) (s : InvoiceIndexState) (index : Index) (more : Index → Run)
    (fresh : List ℕ) (n : Next)
    → ((i : Index) → (more i).0.current ≡ true → IsConfirmed (more i))
    → (after_save turn pages s index more fresh n).0.current ≡ true
    → IsConfirmed (after_save turn pages s index more fresh n)
unfolding after_save
after_save-IsConfirmed turn pages s index more fresh n ih =
    elim (Bool-cases (n.current && is_same_checkpoint s index.state)) [
      | inl e ↦
          rw e (λ h. saved-IsConfirmed turn pages s index fresh n (ground arith) (ground arith))
      | inr e ↦ rw e (ih _)
    ]

after_check-IsConfirmed :
    (turn : Turn) (pages : ℕ) (s : InvoiceIndexState) (index : Index) (more : Index → Run)
    (r : PageResult)
    → ((i : Index) → (more i).0.current ≡ true → IsConfirmed (more i))
    → (after_check turn pages s index more r).0.current ≡ true
    → IsConfirmed (after_check turn pages s index more r)
unfolding after_check
after_check-IsConfirmed turn pages s index more malformed ih h = cc
after_check-IsConfirmed turn pages s index more (stuck total) ih h = cc
after_check-IsConfirmed turn pages s index more unordered ih h = cc
after_check-IsConfirmed turn pages s index more (mismatch total) ih h =
    after_search-IsConfirmed total pages s index more (reposition_index turn.id_at s total) ih h
after_check-IsConfirmed turn pages s index more (save fresh n) ih h =
    after_save-IsConfirmed turn pages s index more fresh n ih h

after_page-IsConfirmed :
    (turn : Turn) (pages : ℕ) (s : InvoiceIndexState) (index : Index) (more : Index → Run)
    (page : Result Page)
    → ((i : Index) → (more i).0.current ≡ true → IsConfirmed (more i))
    → (after_page turn pages s index more page).0.current ≡ true
    → IsConfirmed (after_page turn pages s index more page)
unfolding after_page
after_page-IsConfirmed turn pages s index more (err e) ih h = cc
after_page-IsConfirmed turn pages s index more (ok page) ih h =
    after_check-IsConfirmed turn (pages + 1) s (turn.others index) more (check_page s page) ih h

advance_from-IsConfirmed :
    (turns : List Turn) (pages : ℕ) (s : InvoiceIndexState) (index : Index)
    → (advance_from turns pages s index).0.current ≡ true
    → IsConfirmed (advance_from turns pages s index)
unfolding advance_from
advance_from-IsConfirmed [] pages s index h = cc
advance_from-IsConfirmed (turn ∷ turns) pages s index h =
    after_page-IsConfirmed turn pages s index _ (turn.page (next_position s))
      (λ i. advance_from-IsConfirmed turns (pages + 1) i.state i) h

-- When a run ends as current, the checkpoint that it leaves has the time, the total and the count
-- that the run reports.
pub advance_invoice_index-IsConfirmed :
    (turns : List Turn) (index : Index)
    → (advance_invoice_index turns index).0.current ≡ true
    → IsConfirmed (advance_invoice_index turns index)
unfolding advance_invoice_index
advance_invoice_index-IsConfirmed turns index h =
    advance_from-IsConfirmed turns 0 index.state index h
