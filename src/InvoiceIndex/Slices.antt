-- ===== src/InvoiceIndex/Slices.antt =====
-- What a page of a sorted list covers, and what the checks of a page make of it.
use store_kiotviet.Base.{
  ℕ, zero, suc, ◌+◌, ◌-◌, ◌≤◌, ◌<◌, ◌≡◌, refl, sym, ◌∙◌, subst, inl, inr, ◌⊎◌, Bool, true, false,
  Option, none, some, List, [], ◌∷◌, if◌then◌else◌, ltb, leb, leb→le, ◌==◌, or_else, arith, length,
  take, drop, has_id, All, All-imp, is_empty, is_some, ◌&&◌, eq_of_some,
}
use store_kiotviet.InvoiceIndex.{
  InvoiceIndexState, Page, Next, PageResult, stuck, mismatch, save, has_overlap, next_position,
  increasing_from, check_order, check_fresh, check_overlap, check_ids, check_page,
  invoice_index_page_size, next_checkpoint,
}
use store_kiotviet.InvoiceIndex.Reposition.Place.{Ascending}

-- The last id of a list, or the one before it.
abbrev pub last_or : ℕ → List ℕ → ℕ
last_or b [] = b
last_or b (id ∷ ids) = last_or id ids

increasing_from-last : (b m : ℕ) (ids : List ℕ) → increasing_from b ids ≡ some m → m ≡ last_or b ids
unfolding increasing_from
increasing_from-last b m [] h = sym (eq_of_some h)
increasing_from-last b m (id ∷ ids) h = let ih = increasing_from-last id m ids in ground arith

all_above : (b : ℕ) (ids : List ℕ) → Ascending b ids → All (λ i. b < i) ids
all_above b [] up = tt
all_above b (id ∷ ids) up =
    (up.0, All-imp (λ i k. omega (arith, up.0, k)) ids (all_above id ids up.1))

-- All ids up to the last one of the first `n` are among these.
pub take-covers :
    (n b : ℕ) (ids : List ℕ)
    → Ascending b ids
    → All (λ i. i ≤ last_or b (take n ids) → has_id i (take n ids) ≡ true) ids
take-covers n b [] up = tt
take-covers zero b (id ∷ ids) up =
    All-imp (λ i k h. absurd (omega (arith, k, h))) (id ∷ ids) (all_above b (id ∷ ids) up)
take-covers (suc n) b (id ∷ ids) up = (
  λ h. ground arith,
  All-imp (λ i k h. let here = k h in ground arith) ids (take-covers n id ids up.1),
)

pub take-all : (n : ℕ) (ids : List ℕ) → length ids ≤ length (take n ids) → take n ids ≡ ids
take-all zero [] h = refl
take-all zero (id ∷ ids) h = absurd (omega arith)
take-all (suc n) [] h = refl
take-all (suc n) (id ∷ ids) h = rw (take-all n ids (omega arith)) refl

pub length-drop : (n : ℕ) (ids : List ℕ) → length (drop n ids) ≡ length ids - n
length-drop zero ids = omega arith
length-drop (suc n) [] = omega arith
length-drop (suc n) (id ∷ ids) = omega (arith, length-drop n ids)

-- The ids before a position are smaller than the one at it, those behind it ascend.
drop-above : (k b l : ℕ) (ids rest : List ℕ) → Ascending b ids → drop k ids ≡ l ∷ rest → b < l
drop-above zero b l [] rest up e = cc
drop-above zero b l (id ∷ ids) rest up e = let same : id ≡ l = cc in omega (arith, up.0, same)
drop-above (suc k) b l [] rest up e = cc
drop-above (suc k) b l (id ∷ ids) rest up e =
    let ih = drop-above k id l ids rest up.1 e in omega (arith, up.0, ih)

drop-Ascending :
    (k b l : ℕ) (ids rest : List ℕ) → Ascending b ids → drop k ids ≡ l ∷ rest → Ascending l rest
drop-Ascending zero b l [] rest up e = cc
drop-Ascending zero b l (id ∷ ids) rest up e =
    let same : id ≡ l = cc in
    let tail : ids ≡ rest = cc in
    subst (λ x. Ascending x rest) same (subst (Ascending id) tail up.1)
drop-Ascending (suc k) b l [] rest up e = cc
drop-Ascending (suc k) b l (id ∷ ids) rest up e = drop-Ascending k id l ids rest up.1 e

drop-covers :
    (P : ℕ → Type 0) (k b l : ℕ) (ids rest : List ℕ)
    → Ascending b ids
    → drop k ids ≡ l ∷ rest
    → ((i : ℕ) → i ≤ l → P i)
    → All P rest
    → All P ids
drop-covers P zero b l [] rest up e f a = tt
drop-covers P zero b l (id ∷ ids) rest up e f a =
    let same : id ≡ l = cc in
    let tail : rest ≡ ids = cc in (f id (omega (arith, same)), subst (All P) tail a)
drop-covers P (suc k) b l [] rest up e f a = tt
drop-covers P (suc k) b l (id ∷ ids) rest up e f a =
    let lt = drop-above k id l ids rest up.1 e in
    (f id (omega (arith, lt)), drop-covers P k id l ids rest up.1 e f a)

has_id_self : (ids : List ℕ) → All (λ i. has_id i ids ≡ true) ids
has_id_self [] = tt
has_id_self (id ∷ ids) = (ground arith, All-imp (λ i k. ground arith) ids (has_id_self ids))

last_or-any : (a b : ℕ) (ids : List ℕ) → is_empty ids ≡ false → last_or a ids ≡ last_or b ids
last_or-any a b [] h = cc
last_or-any a b (id ∷ ids) h = refl

-- What a page that is saved makes of the checkpoint.
pub record Saves (s : InvoiceIndexState) (total : ℕ) (ids fresh : List ℕ) (n : Next) : Type 0 where
  pub same : fresh ≡ ids
  pub last : or_else n.last_invoice_id 0 ≡ (
      if is_empty ids
      then or_else s.last_invoice_id 0
      else last_or (or_else s.last_invoice_id 0) ids)
  pub current : n.current ≡ leb total (s.scanned_count + length ids)
  pub start : n.last_invoice_id ≡ none → (n.scanned ≡ s.scanned_count) × (s.last_invoice_id ≡ none)

not_stuck :
    (b : Bool) (total : ℕ) (ids fresh : List ℕ) (m n : Next)
    → (if b then stuck total else save ids m) ≡ save fresh n
    → (ids ≡ fresh) × (m ≡ n)
not_stuck true total ids fresh m n h = cc
not_stuck false total ids fresh m n h = (cc, cc)

checkpoint-Saves :
    (s : InvoiceIndexState) (total m : ℕ) (ids : List ℕ)
    → m ≡ last_or (or_else s.last_invoice_id 0) ids
    → Saves s total ids ids (next_checkpoint s total m ids)
checkpoint-Saves s total m [] e = record {
  same = refl;
  last = refl;
  current = refl;
  start = λ h. (omega arith, h);
}
checkpoint-Saves s total m (id ∷ ids) e = record {
  same = refl;
  last = e;
  current = refl;
  start = λ h. cc;
}

overlap_saved :
    (b : Bool) (total : ℕ) (fresh : List ℕ) (n : Next) (r : PageResult)
    → (if b then r else mismatch total) ≡ save fresh n
    → (b ≡ true) × (r ≡ save fresh n)
overlap_saved true total fresh n r h = (refl, h)
overlap_saved false total fresh n r h = cc

eq_of_== : (a b : ℕ) → (a == b) ≡ true → a ≡ b
eq_of_== a b h = ground arith

check_order-Saves :
    (s : InvoiceIndexState) (total : ℕ) (ids fresh : List ℕ) (n : Next) (o : Option ℕ)
    → check_order s total ids o ≡ save fresh n
    → increasing_from (or_else s.last_invoice_id 0) ids ≡ o
    → Saves s total ids fresh n
unfolding check_order
check_order-Saves s total ids fresh n none h k = cc
check_order-Saves s total ids fresh n (some m) h k =
    let (e, f) = not_stuck (is_empty ids && ltb s.scanned_count total) total ids fresh _ n h in
    let last = increasing_from-last (or_else s.last_invoice_id 0) m ids k in
    subst (Saves s total ids fresh) f (
      subst (λ x. Saves s total ids x (next_checkpoint s total m ids)) e
        (checkpoint-Saves s total m ids last))

check_fresh-Saves :
    (s : InvoiceIndexState) (total : ℕ) (ids fresh : List ℕ) (n : Next)
    → check_fresh s total ids ≡ save fresh n
    → Saves s total ids fresh n
unfolding check_fresh
check_fresh-Saves s total ids fresh n h =
    check_order-Saves s total ids fresh n (increasing_from (or_else s.last_invoice_id 0) ids) h refl

-- The page that a list of remote ids has at a position.
abbrev pub page_of : List ℕ → ℕ → Page
page_of ids position = record {
  total = some (length ids);
  ids = some (take invoice_index_page_size (drop position ids));
}

-- What is known of every remote id once a page of the checkpoint was saved.
pub record Covers (s : InvoiceIndexState) (ids fresh : List ℕ) (n : Next) : Type 0 where
  pub up_to :
      All
        (λ i.
          i ≤ or_else n.last_invoice_id 0
          → (i ≤ or_else s.last_invoice_id 0) ⊎ (has_id i fresh ≡ true))
        ids
  pub all :
      n.current ≡ true → All (λ i. (i ≤ or_else s.last_invoice_id 0) ⊎ (has_id i fresh ≡ true)) ids
  pub within : (a : ℕ) → All (λ i. i ≤ a) ids → All (λ i. i ≤ a) fresh

All-take : (P : ℕ → Type 0) (n : ℕ) (ids : List ℕ) → All P ids → All P (take n ids)
All-take P zero ids h = tt
All-take P (suc n) [] h = tt
All-take P (suc n) (id ∷ ids) h = (h.0, All-take P n ids h.1)

All-drop : (P : ℕ → Type 0) (n : ℕ) (ids : List ℕ) → All P ids → All P (drop n ids)
All-drop P zero ids h = h
All-drop P (suc n) [] h = tt
All-drop P (suc n) (id ∷ ids) h = All-drop P n ids h.1

reached :
    (b c i new : ℕ) (ids : List ℕ)
    → new ≡ (if is_empty ids then b else last_or b ids)
    → (i ≤ last_or c ids → has_id i ids ≡ true)
    → i ≤ new
    → (i ≤ b) ⊎ (has_id i ids ≡ true)
reached b c i new [] e f h = inl (omega (arith, e, h))
reached b c i new (id ∷ ids) e f h = inr (f (omega (arith, e, h)))

start-Covers :
    (s : InvoiceIndexState) (ids fresh : List ℕ) (n : Next)
    → Ascending 0 ids
    → s.scanned_count ≡ 0
    → Saves s (length ids) (take invoice_index_page_size ids) fresh n
    → Covers s ids fresh n
start-Covers s ids fresh n up zero_scanned k = rw k.same (record {
  up_to =
      All-imp (λ i. reached _ 0 i _ (take invoice_index_page_size ids) k.last) ids
        (take-covers invoice_index_page_size 0 ids up);
  all = λ c.
      let whole = leb→le (length ids) _ (sym k.current ∙ c) in
      rw (take-all invoice_index_page_size ids (omega (arith, whole, zero_scanned)))
        (All-imp (λ i h. inr h) ids (has_id_self ids));
  within = λ a. All-take (λ i. i ≤ a) invoice_index_page_size ids;
})

overlap-Covers :
    (s : InvoiceIndexState) (ids fresh rest : List ℕ) (n : Next) (last : ℕ)
    → Ascending 0 ids
    → s.last_invoice_id ≡ some last
    → 0 < s.scanned_count
    → drop (s.scanned_count - 1) ids ≡ last ∷ rest
    → Saves s (length ids) (take 99 rest) fresh n
    → Covers s ids fresh n
overlap-Covers s ids fresh rest n last up e pos d k =
    let before : or_else s.last_invoice_id 0 ≡ last = rw e refl in
    let above = drop-Ascending (s.scanned_count - 1) 0 last ids rest up d in
    rw k.same (record {
      up_to =
          drop-covers _ (s.scanned_count - 1) 0 last ids rest up d
            (λ i le h. inl (omega (arith, before, le)))
            (All-imp (λ i. reached _ last i _ (take 99 rest) k.last) rest
              (take-covers 99 last rest above));
      all = λ c.
          let whole = leb→le (length ids) _ (sym k.current ∙ c) in
          let dropped = length-drop (s.scanned_count - 1) ids in
          let left : length (drop (s.scanned_count - 1) ids) ≡ suc (length rest) = rw d refl in
          let same = take-all 99 rest (omega (arith, whole, dropped, left, pos)) in
          drop-covers _ (s.scanned_count - 1) 0 last ids rest up d
            (λ i le. inl (omega (arith, before, le)))
            (rw same (All-imp (λ i h. inr h) rest (has_id_self rest)));
      within = λ a h.
          All-take (λ i. i ≤ a) 99 rest
            (subst (All (λ i. i ≤ a)) d (All-drop (λ i. i ≤ a) (s.scanned_count - 1) ids h)).1;
    })

-- Where no last id is read again the scan is at the start.
abbrev pub IsPlaced : InvoiceIndexState → Type 0
IsPlaced s = s.last_invoice_id ≡ none → s.scanned_count ≡ 0

check_overlap-Covers :
    (s : InvoiceIndexState) (ids fresh : List ℕ) (n : Next) (last : Option ℕ)
    → Ascending 0 ids
    → 0 < s.scanned_count
    → s.last_invoice_id ≡ last
    → (xs : List ℕ) → drop (s.scanned_count - 1) ids ≡ xs
    → check_overlap s (length ids) last (take invoice_index_page_size xs) ≡ save fresh n
    → Covers s ids fresh n × Saves s (length ids) fresh fresh n
unfolding check_overlap
check_overlap-Covers s ids fresh n none up pos e xs d h = cc
check_overlap-Covers s ids fresh n (some last) up pos e [] d h = cc
check_overlap-Covers s ids fresh n (some last) up pos e (x ∷ rest) d h =
    let (same, k) =
      overlap_saved (x == last) (length ids) fresh n (check_fresh s (length ids) (take 99 rest))
        h in
    let at = eq_of_== x last same in
    let saves = check_fresh-Saves s (length ids) (take 99 rest) fresh n k in
    (
      overlap-Covers s ids fresh rest n last up e pos (d ∙ rw at refl) saves,
      subst (λ x. Saves s (length ids) x fresh n) (sym saves.same) saves,
    )

unplaced :
    (scanned : ℕ) (last : Option ℕ)
    → (ltb 0 scanned && is_some last) ≡ false
    → (last ≡ none → scanned ≡ 0)
    → scanned ≡ 0
unplaced scanned none h placed = placed refl
unplaced scanned (some l) h placed = ground arith

check_ids-Covers :
    (s : InvoiceIndexState) (ids fresh : List ℕ) (n : Next)
    → Ascending 0 ids
    → IsPlaced s
    → (b : Bool) → has_overlap s ≡ b
    → (if b
        then check_overlap s
            (length ids)
            s.last_invoice_id
            (take invoice_index_page_size (drop (s.scanned_count - 1) ids))
        else check_fresh s (length ids) (take invoice_index_page_size (drop s.scanned_count ids)))
      ≡ save fresh n
    → Covers s ids fresh n × Saves s (length ids) fresh fresh n
check_ids-Covers s ids fresh n up placed true o h =
    check_overlap-Covers s ids fresh n s.last_invoice_id up (ground arith) refl _ refl h
check_ids-Covers s ids fresh n up placed false o h =
    let start = unplaced s.scanned_count s.last_invoice_id o placed in
    let at_start : drop s.scanned_count ids ≡ ids = rw start refl in
    let k =
      subst (λ xs. check_fresh s (length ids) (take invoice_index_page_size xs) ≡ save fresh n)
        at_start h in
    let saves = check_fresh-Saves s (length ids) (take invoice_index_page_size ids) fresh n k in
    (
      start-Covers s ids fresh n up start saves,
      subst (λ x. Saves s (length ids) x fresh n) (sym saves.same) saves,
    )

same_branch :
    (b : Bool) (f g : ℕ → PageResult) (p q : ℕ)
    → (if b then f (if b then p else q) else g (if b then p else q)) ≡ (if b then f p else g q)
same_branch true f g p q = refl
same_branch false f g p q = refl

-- A page of a sorted remote list that passes the checks misses no id.
pub check_page-Covers :
    (s : InvoiceIndexState) (ids fresh : List ℕ) (n : Next)
    → Ascending 0 ids
    → IsPlaced s
    → check_page s (page_of ids (next_position s)) ≡ save fresh n
    → Covers s ids fresh n × Saves s (length ids) fresh fresh n
unfolding check_page check_ids
check_page-Covers s ids fresh n up placed h =
    let page : ℕ → List ℕ = λ p. take invoice_index_page_size (drop p ids) in
    check_ids-Covers s ids fresh n up placed (has_overlap s) refl (
      sym (
        same_branch (has_overlap s) (λ p. check_overlap s (length ids) s.last_invoice_id (page p))
          (λ p. check_fresh s (length ids) (page p)) (s.scanned_count - 1) s.scanned_count)
      ∙ h)
