-- ===== src/InvoiceIndex/Tests.antt =====
-- Two invoices that one page indexes, and a search on a list of ids.
use store_kiotviet.Base.{
  ℕ, arith, ◌<◌, ◌≡◌, ◌≢◌, refl, ok, true, Option, none, some, List, [], ◌∷◌, has_id, All,
}
use store_kiotviet.InvoiceIndex.{InvoiceIndexState, Index, Next, check_page, save_page}
use store_kiotviet.InvoiceIndex.Reposition.{over_budget, position, reposition_index}
use store_kiotviet.InvoiceIndex.Reposition.Search.{reposition_index_budget}
use store_kiotviet.InvoiceIndex.Reposition.Place.{id_at_position, reposition_index_found, IdBefore}
use store_kiotviet.InvoiceIndex.Advance.{Turn, advance_invoice_index}
use store_kiotviet.InvoiceIndex.FloorScan.{complete, scan_invoices_above_floor}
use store_kiotviet.InvoiceIndex.FloorScan.Whole.{replies_of, scan_invoices_above_floor_whole}
use store_kiotviet.InvoiceIndex.Slices.{page_of}
use store_kiotviet.InvoiceIndex.Runs.{
  RemoteInvoice, Held, initial, empty_index, IndexReach, here, next, create, tick, read_state,
  read_page, save_held,
}
use store_kiotviet.InvoiceIndex.Runs.Complete.{current_misses_nothing}
use store_kiotviet.InvoiceIndex.Freshness.{judge, fetched_misses_nothing}

abbrev scanned_five : InvoiceIndexState
scanned_five = record {
  scanned_count = 5;
  last_invoice_id = some 40;
  remote_total = some 6;
  current_as_of = none;
  generation = 0;
}

-- The ids 10 and 30 were deleted since.
abbrev remote_ids : List ℕ
remote_ids = 20 ∷ 35 ∷ 40 ∷ 50 ∷ []

reposition_index_budget_example :
    reposition_index (λ p. ok (id_at_position remote_ids p)) scanned_five 4 ≢ over_budget
reposition_index_budget_example =
    reposition_index_budget (λ p. ok (id_at_position remote_ids p)) scanned_five 4 (omega arith)

reposition_index_found_example :
    (o : Option ℕ) × (reposition_index (λ p. ok (id_at_position remote_ids p)) scanned_five 4
      ≡ position 3 o)
    × IdBefore remote_ids 3 o
reposition_index_found_example =
    reposition_index_found remote_ids scanned_five
      (omega arith, (omega arith, (omega arith, (omega arith, tt)))) (omega arith)

abbrev two_invoices : List RemoteInvoice
two_invoices = record { id = 5; created_at = 0 } ∷ record { id = 9; created_at = 0 } ∷ []

abbrev one_page : Turn
one_page = record {
  started_at = 10;
  page = λ p. ok (page_of (5 ∷ 9 ∷ []) p);
  id_at = λ p. ok none;
  others = λ i. i;
}

abbrev indexed : Index
indexed = record {
  state = record {
    scanned_count = 2;
    last_invoice_id = some 9;
    remote_total = some 2;
    current_as_of = some 10;
    generation = 0;
  };
  rows = 5 ∷ 9 ∷ [];
}

one_page-indexed : (advance_invoice_index (one_page ∷ []) empty_index).1 ≡ indexed
unfolding advance_invoice_index check_page save_page
one_page-indexed = refl

abbrev next_two : Next
next_two = record { scanned = 2; last_invoice_id = some 9; total = 2; current = true }

abbrev page_in_hand : Held
page_in_hand = record {
  read = empty_index.state;
  started_at = 10;
  next = next_two;
  fresh = 5 ∷ 9 ∷ [];
}

both_made : IndexReach initial (record initial { remote = two_invoices; allocated = 9; now = 10 })
both_made =
    next (next (next here (create 5 (omega arith))) (create 9 (omega arith)))
      (tick 10 (omega arith))

page_read : IndexReach initial (record initial {
  remote = two_invoices;
  allocated = 9;
  now = 10;
  reads = empty_index.state ∷ [];
  held = page_in_hand ∷ [];
})
unfolding check_page
page_read =
    next (next both_made read_state)
      (read_page [] [] empty_index.state 10 next_two (5 ∷ 9 ∷ []) refl (omega arith) refl)

page_saved : IndexReach initial (record initial {
  remote = two_invoices;
  allocated = 9;
  now = 10;
  index = indexed;
  reads = empty_index.state ∷ [];
  held = page_in_hand ∷ [];
})
unfolding save_page
page_saved = next page_read (save_held [] [] page_in_hand refl)

current_misses_nothing_example :
    All (λ i. i.created_at < 10 → has_id i.id (5 ∷ 9 ∷ []) ≡ true) two_invoices
current_misses_nothing_example = current_misses_nothing 10 page_saved refl

fetched_misses_nothing_example :
    All (λ i. i.created_at < 9 → has_id i.id (5 ∷ 9 ∷ []) ≡ true) two_invoices
unfolding advance_invoice_index check_page save_page judge
fetched_misses_nothing_example =
    fetched_misses_nothing 9 (one_page ∷ []) empty_index page_saved refl refl

abbrev newest_first : List ℕ
newest_first = 50 ∷ 40 ∷ 35 ∷ 20 ∷ []

scan_invoices_above_floor_whole_example :
    scan_invoices_above_floor (replies_of newest_first 1) 35 ≡ complete (50 ∷ 40 ∷ [])
scan_invoices_above_floor_whole_example =
    scan_invoices_above_floor_whole 35 0 newest_first
      (omega arith, (omega arith, (omega arith, tt))) (omega arith)
