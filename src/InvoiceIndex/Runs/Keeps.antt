-- ===== src/InvoiceIndex/Runs/Keeps.antt =====
-- What is known of checkpoints and pages, and the changes of the world that keep it.
use store_kiotviet.Base.{
  ℕ, ◌≤◌, ◌<◌, ◌≡◌, true, false, not, none, some, List, [], ◌∷◌, ◌++◌, or_else, arith, keep_if,
  has_id, All, All-imp, All-join, All-snoc, All-keep_if, ◌==◌,
}
use store_kiotviet.InvoiceIndex.{InvoiceIndexState, Index, forget_indexed_invoice}
use store_kiotviet.InvoiceIndex.Reposition.Place.{Ascending}
use store_kiotviet.InvoiceIndex.Slices.{IsPlaced}
use store_kiotviet.InvoiceIndex.Runs.{RemoteInvoice, ids_of, Held, World}

-- Every remote invoice that meets a condition is in the rows.
abbrev pub Has : List ℕ → RemoteInvoice → Type 0
Has rows i = has_id i.id rows ≡ true

-- A checkpoint, wherever it was read: the index has all invoices up to its last id.
pub record ReadIsSafe (w : World) (s : InvoiceIndexState) : Type 0 where
  pub placed : IsPlaced s
  pub within : or_else s.last_invoice_id 0 ≤ w.allocated
  pub indexed : All (λ i. i.id ≤ or_else s.last_invoice_id 0 → Has w.index.rows i) w.remote

pub record HeldIsSafe (w : World) (h : Held) : Type 0 where
  pub placed : h.next.last_invoice_id ≡ none → h.next.scanned ≡ 0
  pub within : or_else h.next.last_invoice_id 0 ≤ w.allocated
  pub started : h.started_at ≤ w.now
  pub indexed :
      All (λ i. i.id ≤ or_else h.next.last_invoice_id 0 → Has (h.fresh ++ w.index.rows) i) w.remote
  pub complete :
      h.next.current ≡ true
      → All (λ i. i.created_at < h.started_at → Has (h.fresh ++ w.index.rows) i) w.remote

pub record IsSafe (w : World) : Type 0 where
  pub ascending : Ascending 0 (ids_of w.remote)
  pub allocated : All (λ i. i.id ≤ w.allocated) w.remote
  pub state : ReadIsSafe w w.index.state
  pub reads : All (ReadIsSafe w) w.reads
  pub held : All (HeldIsSafe w) w.held
  pub past : (t : ℕ) → w.index.state.current_as_of ≡ some t → t ≤ w.now
  pub complete :
      (t : ℕ)
      → w.index.state.current_as_of ≡ some t
      → All (λ i. i.created_at < t → Has w.index.rows i) w.remote

-- A change of the world that keeps what is known of checkpoints and pages: up to an allocated id,
-- or before a time that has passed, what was indexed still is.
pub record Keeps (w v : World) : Type 0 where
  pub allocated : w.allocated ≤ v.allocated
  pub now : w.now ≤ v.now
  pub up_to :
      (a : ℕ) (fresh : List ℕ)
      → a ≤ w.allocated
      → All (λ i. i.id ≤ a → Has (fresh ++ w.index.rows) i) w.remote
      → All (λ i. i.id ≤ a → Has (fresh ++ v.index.rows) i) v.remote
  pub before :
      (t : ℕ) (fresh : List ℕ)
      → t ≤ w.now
      → All (λ i. i.created_at < t → Has (fresh ++ w.index.rows) i) w.remote
      → All (λ i. i.created_at < t → Has (fresh ++ v.index.rows) i) v.remote

pub read-Keeps : {w v : World} (s : InvoiceIndexState) → Keeps w v → ReadIsSafe w s → ReadIsSafe v s
read-Keeps s k r = record {
  placed = r.placed;
  within = omega (arith, r.within, k.allocated);
  indexed = k.up_to (or_else s.last_invoice_id 0) [] r.within r.indexed;
}

pub held-Keeps : {w v : World} (h : Held) → Keeps w v → HeldIsSafe w h → HeldIsSafe v h
held-Keeps h k r = record {
  placed = r.placed;
  within = omega (arith, r.within, k.allocated);
  started = omega (arith, r.started, k.now);
  indexed = k.up_to (or_else h.next.last_invoice_id 0) h.fresh r.within r.indexed;
  complete = λ c. k.before h.started_at h.fresh r.started (r.complete c);
}

-- The same rows and invoices.
pub unchanged : (w : World) (now : ℕ) → w.now ≤ now → Keeps w (record w { now = now })
unchanged w now h = record {
  allocated = omega arith;
  now = h;
  up_to = λ a f l k. k;
  before = λ t f l k. k;
}

pub create-Keeps :
    (w : World) (id : ℕ)
    → w.allocated < id
    → Keeps w (record w {
      remote = w.remote ++ (record { id = id; created_at = w.now } ∷ []);
      allocated = id;
    })
create-Keeps w id h = record {
  allocated = omega arith;
  now = omega arith;
  up_to = λ a f l k. All-snoc _ w.remote _ k (λ le. absurd (omega (arith, h, l, le)));
  before = λ t f l k. All-snoc _ w.remote _ k (λ lt. absurd (omega (arith, l, lt)));
}

pub delete-Keeps :
    (w : World) (id : ℕ) → Keeps w (record w { remote = keep_if (λ i. not (i.id == id)) w.remote })
delete-Keeps w id = record {
  allocated = omega arith;
  now = omega arith;
  up_to = λ a f l k. All-keep_if _ _ w.remote k;
  before = λ t f l k. All-keep_if _ _ w.remote k;
}

has_id-forget :
    (j id : ℕ) (fresh rows : List ℕ)
    → (j == id) ≡ false
    → has_id j (fresh ++ rows) ≡ true
    → has_id j (fresh ++ keep_if (λ row. not (row == id)) rows) ≡ true
has_id-forget j id [] [] n h = h
has_id-forget j id [] (r ∷ rows) n h = let ih = has_id-forget j id [] rows n in ground arith
has_id-forget j id (f ∷ fresh) rows n h = let ih = has_id-forget j id fresh rows n in ground arith

absent :
    (id : ℕ) (invoices : List RemoteInvoice)
    → has_id id (ids_of invoices) ≡ false
    → All (λ i. (i.id == id) ≡ false) invoices
absent id [] h = tt
absent id (i ∷ invoices) h = (ground arith, absent id invoices (ground arith))

pub forget-Keeps :
    (w : World) (id : ℕ)
    → has_id id (ids_of w.remote) ≡ false
    → Keeps w (record w { index = forget_indexed_invoice id w.index })
unfolding forget_indexed_invoice
forget-Keeps w id gone =
    let other = absent id w.remote gone in
    record {
      allocated = omega arith;
      now = omega arith;
      up_to = λ a f l k.
          All-imp (λ i h le. has_id-forget i.id id f w.index.rows h.0 (h.1 le)) w.remote
            (All-join _ _ w.remote other k);
      before = λ t f l k.
          All-imp (λ i h lt. has_id-forget i.id id f w.index.rows h.0 (h.1 lt)) w.remote
            (All-join _ _ w.remote other k);
    }

has_id-grow :
    (j : ℕ) (fresh more rows : List ℕ)
    → has_id j (fresh ++ rows) ≡ true
    → has_id j (fresh ++ (more ++ rows)) ≡ true
has_id-grow j [] [] rows h = h
has_id-grow j [] (m ∷ more) rows h = let ih = has_id-grow j [] more rows h in ground arith
has_id-grow j (f ∷ fresh) more rows h = let ih = has_id-grow j fresh more rows in ground arith

-- A statement on the index that adds rows.
pub grow-Keeps :
    (w : World) (index : Index) (more : List ℕ)
    → index.rows ≡ more ++ w.index.rows
    → Keeps w (record w { index = index })
grow-Keeps w index more e = record {
  allocated = omega arith;
  now = omega arith;
  up_to =
      λ a f l k. rw e (All-imp (λ i h le. has_id-grow i.id f more w.index.rows (h le)) w.remote k);
  before =
      λ t f l k. rw e (All-imp (λ i h lt. has_id-grow i.id f more w.index.rows (h lt)) w.remote k);
}
