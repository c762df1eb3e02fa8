-- ===== src/InvoiceIndex/Runs/Complete.antt =====
-- A checkpoint that is current as of a time misses no invoice from before that time.
use store_kiotviet.Base.{
  ℕ, ◌+◌, ◌≤◌, ◌<◌, ◌≡◌, refl, sym, ◌∙◌, subst, inl, inr, ◌⊎◌, Bool, true, false, Option, none,
  some, List, [], ◌∷◌, ◌++◌, if◌then◌else◌, ltb, or_else, arith, keep_if, has_id, All, All-imp,
  All-join, All-unmap, All-map, All-snoc, All-at, All-keep_if, is_empty, ◌==◌, eq_of_some, Result,
}
use store_kiotviet.InvoiceIndex.{
  InvoiceIndexState, Index, Next, save, check_page, next_position, save_page, reset_index,
  forget_indexed_invoice, saved_state, is_same_checkpoint,
}
use store_kiotviet.InvoiceIndex.Reposition.{position, reposition_index, move_checkpoint}
use store_kiotviet.InvoiceIndex.Reposition.Search.{IsBelow, search-below}
use store_kiotviet.InvoiceIndex.Reposition.Place.{Ascending}
use store_kiotviet.InvoiceIndex.Slices.{page_of, last_or, check_page-Covers}
use store_kiotviet.InvoiceIndex.Runs.{
  RemoteInvoice, ids_of, Held, World, initial, IndexStep, tick, create, delete, forget, read_state,
  read_page, save_held, reset, reposition, IndexReach, here, next,
}
use store_kiotviet.InvoiceIndex.Runs.Keeps.{
  Has, ReadIsSafe, HeldIsSafe, IsSafe, Keeps, read-Keeps, held-Keeps, unchanged, create-Keeps,
  delete-Keeps, forget-Keeps, grow-Keeps,
}

-- The steps that leave the checkpoint as it is.
same_state-IsSafe :
    {w v : World}
    → IsSafe w
    → Keeps w v
    → v.index.state ≡ w.index.state
    → Ascending 0 (ids_of v.remote)
    → All (λ i. i.id ≤ v.allocated) v.remote
    → All (ReadIsSafe v) v.reads
    → All (HeldIsSafe v) v.held
    → IsSafe v
same_state-IsSafe {w} {v} safe k e up top reads held = record {
  ascending = up;
  allocated = top;
  state = subst (ReadIsSafe v) (sym e) (read-Keeps w.index.state k safe.state);
  reads = reads;
  held = held;
  past = λ t h. omega (arith, safe.past t (rw (sym e) h), k.now);
  complete = λ t h.
      let was : w.index.state.current_as_of ≡ some t = rw (sym e) h in
      k.before t [] (safe.past t was) (safe.complete t was);
}

all_reads :
    {w v : World}
    → Keeps w v
    → (l : List InvoiceIndexState) → All (ReadIsSafe w) l
    → All (ReadIsSafe v) l
all_reads k l h = All-imp (λ s. read-Keeps s k) l h

all_held : {w v : World} → Keeps w v → (l : List Held) → All (HeldIsSafe w) l → All (HeldIsSafe v) l
all_held k l h = All-imp (λ s. held-Keeps s k) l h

positive : (l : List RemoteInvoice) (b : ℕ) → Ascending b (ids_of l) → All (λ i. b < i.id) l
positive [] b up = tt
positive (i ∷ l) b up = (up.0, All-imp (λ j k. omega (arith, k, up.0)) l (positive l i.id up.1))

-- The statements that move the checkpoint: to one that is known to be safe.
moved-IsSafe :
    {w : World} (index : Index) (more : List ℕ)
    → IsSafe w
    → index.rows ≡ more ++ w.index.rows
    → ReadIsSafe (record w { index = index }) index.state
    → ((t : ℕ)
        → index.state.current_as_of ≡ some t
        → (t ≤ w.now) × All (λ i. i.created_at < t → Has index.rows i) w.remote)
    → IsSafe (record w { index = index })
moved-IsSafe {w} index more safe e state complete =
    let k = grow-Keeps w index more e in
    record {
      ascending = safe.ascending;
      allocated = safe.allocated;
      state = state;
      reads = all_reads k w.reads safe.reads;
      held = all_held k w.held safe.held;
      past = λ t h. (complete t h).0;
      complete = λ t h. (complete t h).1;
    }

-- The time from which a saved page says that nothing is missing.
saved_complete :
    (w : World) (h : Held)
    → IsSafe w
    → HeldIsSafe w h
    → (c : Bool) → h.next.current ≡ c
    → (t : ℕ) → (if c then some h.started_at else w.index.state.current_as_of) ≡ some t
    → (t ≤ w.now) × All (λ i. i.created_at < t → Has (h.fresh ++ w.index.rows) i) w.remote
saved_complete w h safe k true e t q =
    let same = eq_of_some q in
    (
      omega (arith, k.started, same),
      All-imp (λ i f lt. f (omega (arith, lt, same))) w.remote (k.complete e),
    )
saved_complete w h safe k false e t q =
    let grown = grow-Keeps w (record w.index { rows = h.fresh ++ w.index.rows }) h.fresh refl in
    (safe.past t q, grown.before t [] (safe.past t q) (safe.complete t q))

save-IsSafe :
    (w : World) (h : Held)
    → IsSafe w
    → HeldIsSafe w h
    → IsSafe (record w { index = save_page h.read h.started_at h.next h.fresh w.index })
unfolding save_page
save-IsSafe w h safe k = go (is_same_checkpoint h.read w.index.state)
  where
    go :
        (b : Bool)
        → IsSafe (record w {
          index =
              if b
              then record {
                state = saved_state h.started_at h.next w.index.state;
                rows = h.fresh ++ w.index.rows;
              }
              else w.index;
        })
    go false = safe
    go true =
        moved-IsSafe _ h.fresh safe refl
          (record { placed = k.placed; within = k.within; indexed = k.indexed })
          (λ t. saved_complete w h safe k h.next.current refl t)

reset-IsSafe :
    (w : World) (read : InvoiceIndexState)
    → IsSafe w
    → IsSafe (record w { index = reset_index read w.index })
unfolding reset_index
reset-IsSafe w read safe = go (w.index.state.generation == read.generation)
  where
    go :
        (b : Bool)
        → IsSafe (record w {
          index =
              if b
              then record w.index {
                state = record {
                  scanned_count = 0;
                  last_invoice_id = none;
                  remote_total = none;
                  current_as_of = none;
                  generation = w.index.state.generation + 1;
                };
              }
              else w.index;
        })
    go false = safe
    go true =
        moved-IsSafe _ [] safe refl
          (record {
            placed = λ h. refl;
            within = omega arith;
            indexed =
                All-imp (λ i k le. absurd (omega (arith, k, le))) w.remote
                  (positive w.remote 0 safe.ascending);
          })
          (λ t h. cc)

before-le :
    (last low : ℕ) (below : Option ℕ)
    → IsBelow last low below
    → or_else (if ltb 0 low then below else none) 0 ≤ last
before-le last low none b = ground arith
before-le last low (some id) b = ground arith

before-placed :
    (last low : ℕ) (below : Option ℕ)
    → IsBelow last low below
    → (if ltb 0 low then below else none) ≡ none
    → low ≡ 0
before-placed last low none b h = b
before-placed last low (some id) b h = ground arith

-- A position behind which nothing is taken as indexed.
move-IsSafe :
    (w : World) (read : InvoiceIndexState) (total low : ℕ) (below : Option ℕ)
    → IsSafe w
    → ReadIsSafe w read
    → IsBelow (or_else read.last_invoice_id 0) low below
    → IsSafe (record w { index = move_checkpoint read total low below w.index })
unfolding move_checkpoint
move-IsSafe w read total low below safe k b = go (is_same_checkpoint read w.index.state)
  where
    go :
        (b : Bool)
        → IsSafe (record w {
          index =
              if b
              then record w.index {
                state = record w.index.state {
                  scanned_count = low;
                  last_invoice_id = if ltb 0 low then below else none;
                  remote_total = some total;
                };
              }
              else w.index;
        })
    go false = safe
    go true =
        moved-IsSafe _ [] safe refl
          (record {
            placed = before-placed (or_else read.last_invoice_id 0) low below b;
            within =
                omega (arith, before-le (or_else read.last_invoice_id 0) low below b, k.within);
            indexed =
                All-imp
                  (λ i f le.
                    f (omega (arith, le, before-le (or_else read.last_invoice_id 0) low below b)))
                  w.remote k.indexed;
          })
          (λ t h. (safe.past t h, safe.complete t h))

has_id-left : (j : ℕ) (xs ys : List ℕ) → has_id j xs ≡ true → has_id j (xs ++ ys) ≡ true
has_id-left j [] ys h = cc
has_id-left j (x ∷ xs) ys h = let ih = has_id-left j xs ys in ground arith

has_id-right : (j : ℕ) (xs ys : List ℕ) → has_id j ys ≡ true → has_id j (xs ++ ys) ≡ true
has_id-right j [] ys h = h
has_id-right j (x ∷ xs) ys h = let ih = has_id-right j xs ys h in ground arith

-- An id that was indexed, or is on the page.
either :
    (last j : ℕ) (fresh rows : List ℕ)
    → (j ≤ last → has_id j rows ≡ true)
    → (j ≤ last) ⊎ (has_id j fresh ≡ true)
    → has_id j (fresh ++ rows) ≡ true
either last j fresh rows f (inl le) = has_id-right j fresh rows (f le)
either last j fresh rows f (inr on) = has_id-left j fresh rows on

last_or-within : (a b : ℕ) (ids : List ℕ) → b ≤ a → All (λ i. i ≤ a) ids → last_or b ids ≤ a
last_or-within a b [] h k = h
last_or-within a b (id ∷ ids) h k = last_or-within a id ids k.0 k.1

next-within :
    (a b new : ℕ) (ids : List ℕ)
    → b ≤ a
    → All (λ i. i ≤ a) ids
    → new ≡ (if is_empty ids then b else last_or b ids)
    → new ≤ a
next-within a b new [] h k e = omega (arith, h, e)
next-within a b new (id ∷ ids) h k e = omega (arith, e, last_or-within a b (id ∷ ids) h k)

read_page-IsSafe :
    (w : World) (read : InvoiceIndexState) (started_at : ℕ) (n : Next) (fresh : List ℕ)
    → IsSafe w
    → ReadIsSafe w read
    → started_at ≤ w.now
    → check_page read (page_of (ids_of w.remote) (next_position read)) ≡ save fresh n
    → HeldIsSafe w (record { read = read; started_at = started_at; next = n; fresh = fresh })
read_page-IsSafe w read started_at n fresh safe k h c =
    let (covers, saves) =
      check_page-Covers read (ids_of w.remote) fresh n safe.ascending k.placed c in
    record {
      placed = λ e. let (x, y) = saves.start e in x ∙ k.placed y;
      within =
          next-within w.allocated (or_else read.last_invoice_id 0) _ fresh k.within
            (covers.within w.allocated (All-map _ _ w.remote safe.allocated)) saves.last;
      started = h;
      indexed =
          All-imp (λ i p le. either _ i.id fresh w.index.rows p.0 (p.1 le)) w.remote
            (All-join _ _ w.remote k.indexed (All-unmap _ _ w.remote covers.up_to));
      complete = λ all.
          All-imp (λ i p lt. either _ i.id fresh w.index.rows p.0 p.1) w.remote
            (All-join _ _ w.remote k.indexed (All-unmap _ _ w.remote (covers.all all)));
    }

Ascending-snoc :
    (b a id : ℕ) (t : ℕ) (l : List RemoteInvoice)
    → b ≤ a
    → a < id
    → Ascending b (ids_of l)
    → All (λ i. i.id ≤ a) l
    → Ascending b (ids_of (l ++ (record { id = id; created_at = t } ∷ [])))
Ascending-snoc b a id t [] le lt up h = (omega (arith, le, lt), tt)
Ascending-snoc b a id t (i ∷ l) le lt up h = (up.0, Ascending-snoc i.id a id t l h.0 lt up.1 h.1)

Ascending-lower : (b c : ℕ) (ids : List ℕ) → b ≤ c → Ascending c ids → Ascending b ids
Ascending-lower b c [] le up = tt
Ascending-lower b c (id ∷ ids) le up = (omega (arith, le, up.0), up.1)

Ascending-keep_if :
    (b : ℕ) (test : RemoteInvoice → Bool) (l : List RemoteInvoice)
    → Ascending b (ids_of l)
    → Ascending b (ids_of (keep_if test l))
Ascending-keep_if b test [] up = tt
Ascending-keep_if b test (i ∷ l) up = go (test i) (Ascending-keep_if i.id test l up.1)
  where
    go :
        (k : Bool)
        → Ascending i.id (ids_of (keep_if test l))
        → Ascending b (ids_of (if k then i ∷ keep_if test l else keep_if test l))
    go true rest = (up.0, rest)
    go false rest = Ascending-lower b i.id (ids_of (keep_if test l)) (omega (arith, up.0)) rest

known-Keeps :
    (w : World) (reads : List InvoiceIndexState) (held : List Held)
    → Keeps w (record w { reads = reads; held = held })
known-Keeps w reads held = record {
  allocated = omega arith;
  now = omega arith;
  up_to = λ a f l k. k;
  before = λ t f l k. k;
}

state-forget : (id : ℕ) (index : Index) → (forget_indexed_invoice id index).state ≡ index.state
unfolding forget_indexed_invoice
state-forget id index = refl

reposition-below :
    (id_at : ℕ → Result (Option ℕ)) (read : InvoiceIndexState) (total low : ℕ) (below : Option ℕ)
    → reposition_index id_at read total ≡ position low below
    → IsBelow (or_else read.last_invoice_id 0) low below
unfolding reposition_index
reposition-below id_at read total low below found =
    search-below 22 id_at (or_else read.last_invoice_id 0) 0 total none low below found refl

pub IndexStep-IsSafe : {w v : World} → IndexStep w v → IsSafe w → IsSafe v
IndexStep-IsSafe {w} (tick now h) safe =
    let k = unchanged w now h in
    same_state-IsSafe safe k refl safe.ascending safe.allocated (all_reads k w.reads safe.reads)
      (all_held k w.held safe.held)
IndexStep-IsSafe {w} (create id h) safe =
    let k = create-Keeps w id h in
    same_state-IsSafe safe k refl
      (Ascending-snoc 0 w.allocated id w.now w.remote (omega arith) h safe.ascending safe.allocated)
      (All-snoc _ w.remote _ (All-imp (λ i le. omega (arith, le, h)) w.remote safe.allocated)
        (omega arith))
      (all_reads k w.reads safe.reads) (all_held k w.held safe.held)
IndexStep-IsSafe {w} (delete id) safe =
    let k = delete-Keeps w id in
    same_state-IsSafe safe k refl (Ascending-keep_if 0 _ w.remote safe.ascending)
      (All-keep_if _ _ w.remote safe.allocated) (all_reads k w.reads safe.reads)
      (all_held k w.held safe.held)
IndexStep-IsSafe {w} (forget id gone) safe =
    let k = forget-Keeps w id gone in
    same_state-IsSafe safe k (state-forget id w.index) safe.ascending safe.allocated
      (all_reads k w.reads safe.reads) (all_held k w.held safe.held)
IndexStep-IsSafe {w} read_state safe =
    let k = known-Keeps w (w.index.state ∷ w.reads) w.held in
    same_state-IsSafe safe k refl safe.ascending safe.allocated
      (read-Keeps w.index.state k safe.state, all_reads k w.reads safe.reads)
      (all_held k w.held safe.held)
IndexStep-IsSafe {w} (read_page xs ys read started_at n fresh e h c) safe =
    let known = All-at (ReadIsSafe w) w.reads xs ys read e safe.reads in
    let page : Held = record { read = read; started_at = started_at; next = n; fresh = fresh } in
    let k = known-Keeps w w.reads (page ∷ w.held) in
    same_state-IsSafe safe k refl safe.ascending safe.allocated (all_reads k w.reads safe.reads) (
      held-Keeps page k (read_page-IsSafe w read started_at n fresh safe known h c),
      all_held k w.held safe.held,
    )
IndexStep-IsSafe {w} (save_held xs ys h e) safe =
    save-IsSafe w h safe (All-at (HeldIsSafe w) w.held xs ys h e safe.held)
IndexStep-IsSafe {w} (reset xs ys read e) safe = reset-IsSafe w read safe
IndexStep-IsSafe {w} (reposition xs ys read id_at total low below e found) safe =
    move-IsSafe w read total low below safe (All-at (ReadIsSafe w) w.reads xs ys read e safe.reads)
      (reposition-below id_at read total low below found)

initial-IsSafe : IsSafe initial
initial-IsSafe = record {
  ascending = tt;
  allocated = tt;
  state = record { placed = λ h. refl; within = omega arith; indexed = tt };
  reads = tt;
  held = tt;
  past = λ t h. cc;
  complete = λ t h. tt;
}

pub IndexReach-IsSafe : {w : World} → IndexReach initial w → IsSafe w
IndexReach-IsSafe here = initial-IsSafe
IndexReach-IsSafe (next r s) = IndexStep-IsSafe s (IndexReach-IsSafe r)

-- In every world that runners, lookups and KiotViet reach together, pages saved twice, lost, reset
-- or repositioned included: if the index is current as of t, it holds every invoice that KiotViet
-- has and made before t.
pub current_misses_nothing :
    {w : World} (t : ℕ)
    → IndexReach initial w
    → w.index.state.current_as_of ≡ some t
    → All (λ i. i.created_at < t → has_id i.id w.index.rows ≡ true) w.remote
current_misses_nothing t r h = (IndexReach-IsSafe r).complete t h

-- In every reachable world, each invoice that KiotViet has with an id up to that of the checkpoint
-- is in the index.
pub indexed_up_to_last :
    {w : World}
    → IndexReach initial w
    → All
        (λ i. i.id ≤ or_else w.index.state.last_invoice_id 0 → has_id i.id w.index.rows ≡ true)
        w.remote
indexed_up_to_last r = (IndexReach-IsSafe r).state.indexed
