-- ===== src/InvoiceIndex/FloorScan/Whole.antt =====
-- On a list that does not change the scan ends, and it finds every invoice above the floor.
use store_kiotviet.Base.{
  ℕ, min, zero, suc, ◌+◌, ◌-◌, ◌*◌, ◌≤◌, ◌<◌, ◌≡◌, refl, sym, ◌∙◌, ap, subst, inl, inr, arith, true,
  false, Option, none, some, List, [], ◌∷◌, ◌++◌, Result, ok, ltb, leb, leb→le, is_empty, length,
  length-append, take, drop, keep_if, Bool-cases, ==-self,
}
use store_kiotviet.InvoiceIndex.{Page}
use store_kiotviet.InvoiceIndex.Slices.{page_of, length-drop}
use store_kiotviet.InvoiceIndex.FloorScan.{
  FloorScan, complete, is_decreasing, take_above, last_id, go_on, scan_fresh, scan_ids, scan_page,
  scan_from, scan_invoices_above_floor,
}

abbrev pub Descends : Option ℕ → List ℕ → Type 0
Descends b [] = Unit
Descends none (id ∷ ids) = Descends (some id) ids
Descends (some b) (id ∷ ids) = (id < b) × Descends (some id) ids

abbrev pub above : ℕ → List ℕ → List ℕ
above floor ids = keep_if (λ id. ltb floor id) ids

below_none :
    (floor b : ℕ) (ids : List ℕ) → Descends (some b) ids → b ≤ floor + 1 → above floor ids ≡ []
below_none floor b [] d h = refl
below_none floor b (id ∷ ids) d h =
    let lt = d.0 in let ih = below_none floor id ids d.1 in ground arith

below_floor :
    (floor id : ℕ) (ids : List ℕ) → Descends (some id) ids → id ≤ floor → above floor ids ≡ []
below_floor floor id ids d h = below_none floor id ids d (omega arith)

is_decreasing-take :
    (n : ℕ) (b : Option ℕ) (ids : List ℕ) → Descends b ids → is_decreasing b (take n ids) ≡ true
unfolding is_decreasing
is_decreasing-take zero b ids d = refl
is_decreasing-take (suc n) b [] d = refl
is_decreasing-take (suc n) none (id ∷ ids) d = is_decreasing-take n (some id) ids d
is_decreasing-take (suc n) (some b) (id ∷ ids) d =
    let lt = d.0 in let ih = is_decreasing-take n (some id) ids d.1 in ground arith

-- What a page says of the rest of the list.
record Reads (floor n : ℕ) (ids : List ℕ) : Type 0 where
  stopped :
      (take_above floor (take n ids)).1 ≡ true → (take_above floor (take n ids)).0 ≡ above floor ids
  all :
      (take_above floor (take n ids)).1 ≡ false
      → ((take_above floor (take n ids)).0 ≡ take n ids)
        × (above floor ids ≡ take n ids ++ above floor (drop n ids))

Descends-tail :
    (b : Option ℕ) (id : ℕ) (ids : List ℕ) → Descends b (id ∷ ids) → Descends (some id) ids
Descends-tail none id ids d = d
Descends-tail (some b) id ids d = d.1

not_above : (floor id : ℕ) → leb id floor ≡ true → ltb floor id ≡ false
not_above floor id h = ground arith

is_above : (floor id : ℕ) → leb id floor ≡ false → ltb floor id ≡ true
is_above floor id h = ground arith

take_above-Reads : (floor n : ℕ) (b : Option ℕ) (ids : List ℕ) → Descends b ids → Reads floor n ids
unfolding take_above
take_above-Reads floor zero b ids d = record { stopped = λ h. cc; all = λ h. (refl, refl) }
take_above-Reads floor (suc n) b [] d = record { stopped = λ h. cc; all = λ h. (refl, refl) }
take_above-Reads floor (suc n) b (id ∷ ids) d =
    let tail = Descends-tail b id ids d in
    let ih = take_above-Reads floor n (some id) ids tail in
    let low = below_floor floor id ids tail in
    elim (Bool-cases (leb id floor)) [
      | inl le ↦ record {
        stopped = rw (le, not_above floor id le) (λ h. sym (low (leb→le id floor le)));
        all = rw le (λ h. cc);
      }
      | inr gt ↦ record {
        stopped = rw (gt, is_above floor id gt) (λ h. ap (λ l. id ∷ l) (ih.stopped h));
        all =
            rw (gt, is_above floor id gt)
              (λ h. (ap (λ l. id ∷ l) (ih.all h).0, ap (λ l. id ∷ l) (ih.all h).1));
      }
    ]

-- Where the scan stands in the list: the position that it reads next and what is left behind it.
abbrev Stands : List ℕ → ℕ → Option ℕ → List ℕ → Type 0
Stands ids offset none rest = (offset ≡ 0) × (rest ≡ ids)
Stands ids offset (some last) rest = (0 < offset) × (drop (offset - 1) ids ≡ last ∷ rest)

drop-step :
    (k : ℕ) (ids : List ℕ) (x : ℕ) (rest : List ℕ) → drop k ids ≡ x ∷ rest → drop (suc k) ids ≡ rest
drop-step zero [] x rest e = cc
drop-step zero (id ∷ ids) x rest e = cc
drop-step (suc k) [] x rest e = cc
drop-step (suc k) (id ∷ ids) x rest e = drop-step k ids x rest e

shifted : (j k : ℕ) (ids xs : List ℕ) → j ≡ k → drop k ids ≡ xs → drop j ids ≡ xs
shifted j k ids xs e h = rw e h

-- After a page the scan stands behind its last id.
stands-after :
    (n k last : ℕ) (ids rest : List ℕ)
    → drop k ids ≡ last ∷ rest
    → (l : ℕ) × (last_id (some last) (take n rest) ≡ some l)
      × (drop (k + length (take n rest)) ids ≡ l ∷ drop n rest)
stands-after zero k last ids rest e = (last, refl, shifted (k + 0) k ids _ (omega arith) e)
stands-after (suc n) k last ids [] e = (last, refl, shifted (k + 0) k ids _ (omega arith) e)
stands-after (suc n) k last ids (x ∷ rest) e =
    let (l, f, g) = stands-after n (suc k) x ids rest (drop-step k ids last (x ∷ rest) e) in
    (l, f, shifted _ _ ids _ (omega arith) g)

append_nil : (xs : List ℕ) → xs ++ [] ≡ xs
append_nil [] = refl
append_nil (x ∷ xs) = ap (λ l. x ∷ l) (append_nil xs)

append_assoc : (xs ys zs : List ℕ) → (xs ++ ys) ++ zs ≡ xs ++ (ys ++ zs)
append_assoc [] ys zs = refl
append_assoc (x ∷ xs) ys zs = ap (λ l. x ∷ l) (append_assoc xs ys zs)

drop-all : (n : ℕ) (ids : List ℕ) → length ids ≤ length (take n ids) → drop n ids ≡ []
drop-all zero [] h = refl
drop-all zero (id ∷ ids) h = absurd (omega arith)
drop-all (suc n) [] h = refl
drop-all (suc n) (id ∷ ids) h = drop-all n ids (omega arith)

Descends-drop :
    (n : ℕ) (b : Option ℕ) (l : ℕ) (ids : List ℕ)
    → Descends b ids
    → last_id b (take n ids) ≡ some l
    → Descends (some l) (drop n ids)
Descends-drop zero b l ids d e = subst (λ x. Descends x ids) e d
Descends-drop (suc n) b l [] d e = tt
Descends-drop (suc n) b l (id ∷ ids) d e =
    Descends-drop n (some id) l ids (Descends-tail b id ids d) e

length-take : (n : ℕ) (ids : List ℕ) → length (take n ids) ≡ min n (length ids)
length-take zero ids = omega arith
length-take (suc n) [] = omega arith
length-take (suc n) (id ∷ ids) = omega (arith, length-take n ids)

nonempty : (xs : List ℕ) → 0 < length xs → is_empty xs ≡ false
nonempty [] h = absurd (omega arith)
nonempty (x ∷ xs) h = refl

not_le : (a b : ℕ) → leb a b ≡ false → b < a
not_le a b h = ground arith

-- The last page, and any other one.
go_on-whole :
    (floor total offset n : ℕ) (b : Option ℕ) (invoices rest : List ℕ)
    (more : ℕ → Option ℕ → List ℕ → FloorScan)
    → 0 < n
    → offset + length rest ≡ total
    → above floor rest ≡ take n rest ++ above floor (drop n rest)
    → (n < length rest
        → more (offset + length (take n rest)) (last_id b (take n rest)) (invoices ++ take n rest)
          ≡ complete ((invoices ++ take n rest) ++ above floor (drop n rest)))
    → go_on total offset b (take n rest) (invoices ++ take n rest) more
      ≡ complete (invoices ++ above floor rest)
unfolding go_on
go_on-whole floor total offset n b invoices rest more pos e parts next =
    elim (Bool-cases (leb total (offset + length (take n rest)))) [
      | inl le ↦
          let none_left = drop-all n rest (omega (arith, leb→le _ _ le, e)) in
          let last_page : above floor rest ≡ take n rest =
            parts ∙ rw none_left (append_nil (take n rest)) in
          rw le (ap (λ l. complete (invoices ++ l)) (sym last_page))
      | inr gt ↦
          let size = length-take n rest in
          let more_left = not_le _ _ gt in
          let some_read = nonempty (take n rest) (omega (arith, size, more_left, e, pos)) in
          rw (gt, some_read)
            (next (omega (arith, size, more_left, e))
              ∙ ap complete (
                  append_assoc invoices (take n rest) (above floor (drop n rest))
                  ∙ ap (λ l. invoices ++ l) (sym parts)))
    ]

scan_fresh-whole :
    (floor total offset n : ℕ) (b : Option ℕ) (invoices rest : List ℕ)
    (more : ℕ → Option ℕ → List ℕ → FloorScan)
    → 0 < n
    → Descends b rest
    → offset + length rest ≡ total
    → (n < length rest
        → above floor rest ≡ take n rest ++ above floor (drop n rest)
        → more (offset + length (take n rest)) (last_id b (take n rest)) (invoices ++ take n rest)
          ≡ complete ((invoices ++ take n rest) ++ above floor (drop n rest)))
    → scan_fresh floor total offset b invoices (take n rest) more
      ≡ complete (invoices ++ above floor rest)
unfolding scan_fresh
scan_fresh-whole floor total offset n b invoices rest more pos d e next =
    let reads = take_above-Reads floor n b rest d in
    rw (is_decreasing-take n b rest d) (elim (Bool-cases (take_above floor (take n rest)).1) [
      | inl stop ↦ rw (stop, reads.stopped stop) refl
      | inr on ↦
          let (all, parts) = reads.all on in
          rw (on, all)
            (go_on-whole floor total offset n b invoices rest more pos e parts (λ h. next h parts))
    ])

-- The replies of KiotViet for a list that does not change, one for each page.
abbrev pub replies_of : List ℕ → ℕ → List (ℕ → Result Page)
replies_of ids zero = []
replies_of ids (suc n) = (λ p. ok (page_of ids p)) ∷ replies_of ids n

fewer :
    (floor n pages : ℕ) (rest : List ℕ)
    → n < length rest
    → above floor rest ≡ take n rest ++ above floor (drop n rest)
    → length (above floor rest) < n + 99 * pages
    → length (above floor (drop n rest)) < 99 * pages
fewer floor n pages rest longer parts few =
    let size = length-take n rest in
    let whole = length-append (take n rest) (above floor (drop n rest)) in
    let same = ap length parts in omega (arith, size, whole, same, few, longer)

scan_from-whole :
    (pages floor offset last : ℕ) (ids invoices rest : List ℕ)
    → 0 < offset
    → drop (offset - 1) ids ≡ last ∷ rest
    → Descends (some last) rest
    → length (above floor rest) < 99 * pages
    → scan_from (replies_of ids pages) floor offset (some last) invoices
      ≡ complete (invoices ++ above floor rest)
unfolding scan_from scan_page scan_ids
scan_from-whole zero floor offset last ids invoices rest pos at d few = absurd (omega arith)
scan_from-whole (suc pages) floor offset last ids invoices rest pos at d few =
    let (l, f, g) = stands-after 99 (offset - 1) last ids rest at in
    let dropped = length-drop (offset - 1) ids in
    let left : length (drop (offset - 1) ids) ≡ suc (length rest) = rw at refl in
    rw (at, ==-self last)
      (scan_fresh-whole floor (length ids) offset 99 (some last) invoices rest
        (λ o k found. scan_from (replies_of ids pages) floor o k found) (omega arith) d
        (omega (arith, dropped, left, pos))
        (λ longer parts. rw f (
          scan_from-whole pages floor (offset + length (take 99 rest)) l ids
            (invoices ++ take 99 rest) (drop 99 rest) (omega (arith, pos))
            (shifted _ _ ids _ (omega (arith, pos)) g) (Descends-drop 99 (some last) l rest d f)
            (fewer floor 99 pages rest longer parts (omega (arith, few))))))

-- On a list of invoices in decreasing order, the scan with enough pages for the ids above the floor
-- ends as complete, with exactly those ids.
pub scan_invoices_above_floor_whole :
    (floor pages : ℕ) (ids : List ℕ)
    → Descends none ids
    → length (above floor ids) < 100 + 99 * pages
    → scan_invoices_above_floor (replies_of ids (suc pages)) floor ≡ complete (above floor ids)
unfolding scan_invoices_above_floor scan_from scan_page scan_ids
scan_invoices_above_floor_whole floor pages [] d few = refl
scan_invoices_above_floor_whole floor pages (x ∷ xs) d few =
    let (l, f, g) = stands-after 99 0 x (x ∷ xs) xs refl in
    scan_fresh-whole floor (length (x ∷ xs)) 0 100 none [] (x ∷ xs)
      (λ o k found. scan_from (replies_of (x ∷ xs) pages) floor o k found) (omega arith) d
      (omega arith)
      (λ longer parts. rw f (
        scan_from-whole pages floor (0 + length (take 100 (x ∷ xs))) l (x ∷ xs) (take 100 (x ∷ xs))
          (drop 99 xs) (omega arith) (shifted _ _ (x ∷ xs) _ (omega arith) g)
          (Descends-drop 99 (some x) l xs d f) (fewer floor 100 pages (x ∷ xs) longer parts few)))
