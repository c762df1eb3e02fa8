-- ===== src/InvoiceIndex/FloorScan.antt =====
-- scanInvoicesAboveFloor: KiotViet's invoices are read newest first, until one is not above the
-- floor. Each page reads the last invoice of the page before again.
pub mod Whole
use store_kiotviet.Base.{
  ℕ, zero, suc, ◌+◌, ◌-◌, Bool, true, false, ◌&&◌, ◌||◌, not, Option, none, some, List, [], ◌∷◌,
  ◌++◌, Result, ok, err, if◌then◌else◌, ltb, leb, ◌==◌, is_some, is_empty, length,
}
use store_kiotviet.InvoiceIndex.{Page}

pub data FloorScan : Type 0 where
  complete : (invoices : List ℕ) → FloorScan
  incomplete : FloorScan

abbrev is_before : Option ℕ → ℕ → Bool
is_before none id = true
is_before (some previous) id = ltb id previous

-- Strictly newest first.
unfoldable pub is_decreasing : Option ℕ → List ℕ → Bool
is_decreasing previous [] = true
is_decreasing previous (id ∷ ids) = is_before previous id && is_decreasing (some id) ids

-- The ids above the floor up to the first that is not, and whether there was one.
unfoldable pub take_above : (floor : ℕ) → List ℕ → List ℕ × Bool
take_above floor [] = ([], false)
take_above floor (id ∷ ids) =
    let (rest, stopped) = take_above floor ids in
    if leb id floor then ([], true) else (id ∷ rest, stopped)

abbrev pub last_id : Option ℕ → List ℕ → Option ℕ
last_id last [] = last
last_id last (id ∷ ids) = last_id (some id) ids

-- The rest of the loop, for an offset and a last id, with more invoices.
abbrev More : Type 0
More = ℕ → Option ℕ → List ℕ → FloorScan

go_on : (total offset : ℕ) → Option ℕ → List ℕ → List ℕ → More → FloorScan
go_on total offset last fresh invoices more =
    if leb total (offset + length fresh)
    then complete invoices
    else if is_empty fresh
    then incomplete
    else more (offset + length fresh) (last_id last fresh) invoices

scan_fresh : (floor total offset : ℕ) → Option ℕ → List ℕ → List ℕ → More → FloorScan
unfolding is_decreasing take_above go_on
scan_fresh floor total offset last invoices fresh more =
    if is_decreasing last fresh
    then (let (above, stopped) = take_above floor fresh in
        if stopped
        then complete (invoices ++ above)
        else go_on total offset last fresh (invoices ++ above) more)
    else incomplete

scan_ids : (floor total offset : ℕ) → Option ℕ → List ℕ → List ℕ → More → FloorScan
unfolding scan_fresh
scan_ids floor total offset none invoices ids more =
    scan_fresh floor total offset none invoices ids more
scan_ids floor total offset (some last) invoices [] more = incomplete
scan_ids floor total offset (some last) invoices (id ∷ ids) more =
    if id == last then scan_fresh floor total offset (some last) invoices ids more else incomplete

scan_page : (floor offset : ℕ) → Option ℕ → List ℕ → Result Page → More → FloorScan
unfolding scan_ids
scan_page floor offset last invoices (err e) more = incomplete
scan_page floor offset last invoices (ok page) more = elim page.total [
  | none ↦ incomplete
  | some total ↦ elim page.ids [
    | none ↦ incomplete
    | some ids ↦ scan_ids floor total offset last invoices ids more
  ]
]

abbrev position_of : ℕ → Option ℕ → ℕ
position_of offset last = if is_some last then offset - 1 else offset

-- One reply for each page that may be read.
unfoldable pub scan_from :
    (replies : List (ℕ → Result Page)) (floor offset : ℕ) → Option ℕ → List ℕ → FloorScan
unfolding scan_page
scan_from [] floor offset last invoices = incomplete
scan_from (reply ∷ replies) floor offset last invoices =
    scan_page floor offset last invoices (reply (position_of offset last))
      (λ o l found. scan_from replies floor o l found)

abbrev pub floor_scan_max_pages : ℕ
floor_scan_max_pages = 5

unfoldable pub scan_invoices_above_floor :
    (replies : List (ℕ → Result Page)) (floor : ℕ) → FloorScan
unfolding scan_from
scan_invoices_above_floor replies floor = scan_from replies floor 0 none []
