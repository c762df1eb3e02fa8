-- ===== src/InvoiceIndex/Runs.antt =====
-- Runners of lib/kiotviet/invoice-index.ts and lookups in any interleaving, while KiotViet makes and
-- deletes invoices. Ids are allocated in increasing order, and a page is one answer of KiotViet.
pub mod Keeps
pub mod Complete
use store_kiotviet.Base.{
  ℕ, ◌+◌, ◌≤◌, ◌<◌, ◌≡◌, Bool, true, false, not, Option, none, some, List, [], ◌∷◌, ◌++◌, Result,
  ok, err, AppError, map, keep_if, has_id, ◌==◌,
}
use store_kiotviet.InvoiceIndex.{
  InvoiceIndexState, Index, Next, save, check_page, next_position, save_page, reset_index,
  forget_indexed_invoice,
}
use store_kiotviet.InvoiceIndex.Reposition.{position, reposition_index, move_checkpoint}
use store_kiotviet.InvoiceIndex.Slices.{page_of}

-- An invoice that KiotViet has, and when it was made.
pub record RemoteInvoice : Type 0 where
  pub id : ℕ
  pub created_at : ℕ

abbrev pub ids_of : List RemoteInvoice → List ℕ
ids_of invoices = map (λ i. i.id) invoices

-- A checked page that a runner is about to save.
pub record Held : Type 0 where
  pub read : InvoiceIndexState
  pub started_at : ℕ
  pub next : Next
  pub fresh : List ℕ

-- `reads` are the checkpoints that runners read, `held` the pages in their hands; a runner that
-- stops leaves them unused.
pub record World : Type 0 where
  pub remote : List RemoteInvoice
  pub allocated : ℕ
  pub now : ℕ
  pub index : Index
  pub reads : List InvoiceIndexState
  pub held : List Held

abbrev pub empty_index : Index
empty_index = record {
  state = record {
    scanned_count = 0;
    last_invoice_id = none;
    remote_total = none;
    current_as_of = none;
    generation = 0;
  };
  rows = [];
}

abbrev pub initial : World
initial = record { remote = []; allocated = 0; now = 0; index = empty_index; reads = []; held = [] }

abbrev without : ℕ → List RemoteInvoice → List RemoteInvoice
without id invoices = keep_if (λ i. not (i.id == id)) invoices

pub data IndexStep (w : World) : World → Type 0 where
  tick : (now : ℕ) → w.now ≤ now → IndexStep w (record w { now = now })
  create :
      (id : ℕ)
      → w.allocated < id
      → IndexStep w (record w {
        remote = w.remote ++ (record { id = id; created_at = w.now } ∷ []);
        allocated = id;
      })
  delete : (id : ℕ) → IndexStep w (record w { remote = without id w.remote })
  -- a deleted invoice is removed from the index
  forget :
      (id : ℕ)
      → has_id id (ids_of w.remote) ≡ false
      → IndexStep w (record w { index = forget_indexed_invoice id w.index })
  read_state : IndexStep w (record w { reads = w.index.state ∷ w.reads })
  -- the answer comes after `started_at`
  read_page :
      (xs ys : List InvoiceIndexState) (read : InvoiceIndexState) (started_at : ℕ) (n : Next)
      (fresh : List ℕ)
      → w.reads ≡ xs ++ (read ∷ ys)
      → started_at ≤ w.now
      → check_page read (page_of (ids_of w.remote) (next_position read)) ≡ save fresh n
      → IndexStep w (record w {
        held = record { read = read; started_at = started_at; next = n; fresh = fresh } ∷ w.held;
      })
  save_held :
      (xs ys : List Held) (h : Held)
      → w.held ≡ xs ++ (h ∷ ys)
      → IndexStep w (record w { index = save_page h.read h.started_at h.next h.fresh w.index })
  reset :
      (xs ys : List InvoiceIndexState) (read : InvoiceIndexState)
      → w.reads ≡ xs ++ (read ∷ ys)
      → IndexStep w (record w { index = reset_index read w.index })
  -- KiotViet's list may change while it is searched
  reposition :
      (xs ys : List InvoiceIndexState) (read : InvoiceIndexState) (id_at : ℕ → Result (Option ℕ))
      (total low : ℕ) (below : Option ℕ)
      → w.reads ≡ xs ++ (read ∷ ys)
      → reposition_index id_at read total ≡ position low below
      → IndexStep w (record w { index = move_checkpoint read total low below w.index })

pub data IndexReach (w : World) : World → Type 0 where
  here : IndexReach w w
  next : {u v : World} → IndexReach w u → IndexStep u v → IndexReach w v
