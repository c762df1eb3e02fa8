-- ===== src/AutoInvoice/Finalize/Verified.antt =====
-- What an invoice that ends as created has been checked for, and how a lookup ends.
use store_kiotviet.Base.{
  ℕ, ◌≡◌, refl, sym, arith, ◌⊎◌, inl, inr, Bool, true, false, ◌&&◌, ◌||◌, not, Option, none, some,
  List, [], ◌∷◌, Result, ok, err, if◌then◌else◌, is_empty, keep_if, all_of, any_of, get, eq_of_some,
}
use store_kiotviet.Base.Int.{ℤ, pos, ◌-ℤ◌, eqb_ℤ, sum_ℤ, eq_of_parts, ltb_ℤ}
use store_kiotviet.Text.{Text}
use store_kiotviet.AutoInvoice.{
  InvoiceRow, MaybeRow, InvoiceStatus, InvoiceReconciliation, Stock, ExpectedLine, is_pending,
  is_creating, mark_needs_review, verify_invoice,
}
use store_kiotviet.AutoInvoice.Movement.{is_invoiced, invoiced, verify_stock_movement_exact}
use store_kiotviet.AutoInvoice.Checks.{
  InvoiceDetail, InvoiceChecks, check_invoice, all_passed, is_product_only, expected_payment,
  is_line, total_matches, payment_records_match,
}
use store_kiotviet.AutoInvoice.Finalize.{
  names_branch, with_stock, is_verified, judge_invoice, finalize_invoice, VerifyResult, unchanged,
  retry, finalized, duplicate_invoice, invoice_missing, verify_order_invoice, settle_row,
  settle_found, InvoiceLookup, noted, not_cancelled, may_link,
}

-- The facts behind a verdict that an invoice is in order.
pub record IsInOrder (row : InvoiceRow) (d : InvoiceDetail) (after : Option Stock) : Type 0 where
  -- every expected line is on the invoice, with its quantity and price and without a discount
  pub lines : all_of (λ e. any_of (is_line e) d.lines) row.reconciliation.expected_lines ≡ true
  -- the total is the expected one, without the shipping where that is a surcharge
  pub total :
      (expected : ℤ) × (row.expected_total ≡ some expected)
      × ((d.total ≡ expected)
          ⊎ ((d.total ≡ expected -ℤ row.reconciliation.shipping_total)
              × (sum_ℤ d.surcharges ≡ row.reconciliation.shipping_total)))
  -- outside of Product-Only mode the payment is the expected one, and so are its records
  pub payment :
      is_product_only row.reconciliation ≡ false
      → (d.total_payment ≡ expected_payment row)
        × ((rows : List ℤ) → d.payments ≡ some rows → sum_ℤ rows ≡ d.total_payment)
  -- at a known branch the stock of each product went down by what was invoiced
  pub stock :
      names_branch row.reconciliation.branch_id ≡ true
      → (k : ℕ) → is_invoiced k row.reconciliation.expected_lines ≡ true
      → (stock : Stock) × (b : ℤ) × (after ≡ some stock)
        × (get k row.reconciliation.stock_before ≡ some (some b))
        × (get k stock ≡ some (some (b -ℤ pos (invoiced k row.reconciliation.expected_lines))))

eqb→eq : (a b : ℤ) → eqb_ℤ a b ≡ true → a ≡ b
eqb→eq a b h = eq_of_parts a b (ground arith)

-- Which of the two totals it is.
which_total :
    (p a b y z w : Bool)
    → (if p then a && b else a || y && z && w) ≡ true
    → (a ≡ true) ⊎ ((z ≡ true) × (w ≡ true))
which_total true a b y z w h = inl (ground arith)
which_total false true b y z w h = inl refl
which_total false false b y z w h = inr (ground arith, ground arith)

total_matches-cases :
    (r : InvoiceReconciliation) (e : Option ℤ) (d : InvoiceDetail)
    → total_matches r e d ≡ true
    → (expected : ℤ) × (e ≡ some expected)
      × ((d.total ≡ expected)
          ⊎ ((d.total ≡ expected -ℤ r.shipping_total) × (sum_ℤ d.surcharges ≡ r.shipping_total)))
total_matches-cases r none d h = cc
total_matches-cases r (some e) d h = (
  e,
  refl,
  elim (which_total (is_product_only r) (eqb_ℤ d.total e) (eqb_ℤ (sum_ℤ d.surcharges) (pos 0))
      (ltb_ℤ (pos 0) r.shipping_total) (eqb_ℤ d.total (e -ℤ r.shipping_total))
      (eqb_ℤ (sum_ℤ d.surcharges) r.shipping_total) h) [
        | inl same ↦ inl (eqb→eq d.total e same)
        | inr (less, shipping) ↦
            inr (eqb→eq d.total _ less, eqb→eq (sum_ℤ d.surcharges) r.shipping_total shipping)
      ],
)

records_match :
    (r : InvoiceReconciliation) (d : InvoiceDetail) (rows : List ℤ)
    → payment_records_match r d ≡ true
    → d.payments ≡ some rows
    → sum_ℤ rows ≡ d.total_payment
records_match r d rows h e = go d.payments e h
  where
    go :
        (o : Option (List ℤ))
        → o ≡ some rows
        → (elim o [ none ↦ eqb_ℤ r.prepaid (pos 0) | some rs ↦ eqb_ℤ (sum_ℤ rs) d.total_payment ])
          ≡ true
        → sum_ℤ rows ≡ d.total_payment
    go none e h = cc
    go (some rs) e h = rw (sym (eq_of_some e)) (eqb→eq (sum_ℤ rs) d.total_payment h)

picked :
    (b : Bool) (x y : InvoiceReconciliation)
    → is_verified (if b then x else y).stock_verified ≡ true
    → b ≡ true
    → is_verified x.stock_verified ≡ true
picked true x y h e = h
picked false x y h e = cc

invoiced_some :
    (k : ℕ) (lines : List ExpectedLine) → is_invoiced k lines ≡ true → is_empty lines ≡ false
invoiced_some k [] h = cc
invoiced_some k (l ∷ lines) h = refl

stock_moved :
    (r : InvoiceReconciliation) (after : Option Stock) (k : ℕ)
    → is_verified (with_stock r after).stock_verified ≡ true
    → names_branch r.branch_id ≡ true
    → is_invoiced k r.expected_lines ≡ true
    → (stock : Stock) × (b : ℤ) × (after ≡ some stock)
      × (get k r.stock_before ≡ some (some b))
      × (get k stock ≡ some (some (b -ℤ pos (invoiced k r.expected_lines))))
unfolding with_stock
stock_moved r none k h n i =
    let some_lines = invoiced_some k r.expected_lines i in
    let moved =
      picked (names_branch r.branch_id && not (is_empty r.expected_lines)) _ r h (ground arith) in
    cc
stock_moved r (some stock) k h n i =
    let some_lines = invoiced_some k r.expected_lines i in
    let moved =
      picked (names_branch r.branch_id && not (is_empty r.expected_lines)) _ r h (ground arith) in
    let (b, e, f) = verify_stock_movement_exact r.expected_lines r.stock_before stock k moved i in
    (stock, b, refl, e, f)

all_passed-parts :
    (p : Bool) (c : InvoiceChecks) (v : Bool)
    → (all_passed p c && v) ≡ true
    → (c.lines ≡ true)
      × (c.total ≡ true)
      × (v ≡ true)
      × (p ≡ false → (c.payment ≡ true) × (c.payment_records ≡ true))
all_passed-parts p c v h =
    (ground arith, ground arith, ground arith, λ e. (ground arith, ground arith))

and_last : (a b : Bool) → (a && b) ≡ true → b ≡ true
and_last a b h = ground arith

-- An invoice is judged in order only if every expected line is on it with its quantity and price,
-- its total is the expected one, the payments agree outside of Product-Only mode, and at a known
-- branch the stock of each product went down by exactly what was invoiced.
pub judge_invoice-IsInOrder :
    (row : InvoiceRow) (d : InvoiceDetail) (code : Text) (after : Option Stock)
    → (judge_invoice row d code after).is_ok ≡ true
    → IsInOrder row d after
unfolding judge_invoice check_invoice
judge_invoice-IsInOrder row d code after h =
    let r = row.reconciliation in
    let checks = check_invoice row d code in
    let (lines, total, moved, paid) = all_passed-parts (is_product_only r) checks _ h in
    record {
      lines = and_last _ _ lines;
      total = total_matches-cases r row.expected_total d total;
      payment = λ p. (
        eqb→eq d.total_payment (expected_payment row) (and_last _ _ (paid p).0),
        λ rows e. records_match r d rows (paid p).1 e,
      );
      stock = λ n k i. stock_moved r after k moved n i;
    }

-- A row that was requested and whose lookup gives an answer does not stay in flight.
abbrev pub in_flight : MaybeRow → Bool
in_flight none = false
in_flight (some r) = is_pending r.status || is_creating r.status

-- Whether the run ended with an answer.
abbrev pub has_answer : VerifyResult → Bool
has_answer finalized = true
has_answer duplicate_invoice = true
has_answer invoice_missing = true
has_answer _ = false

abbrev ends : Bool → InvoiceRow → MaybeRow → VerifyResult × MaybeRow
ends b row after = if b then (retry, some row) else (invoice_missing, after)

answered :
    (b : Bool) (row : InvoiceRow) (after : MaybeRow)
    → has_answer (ends b row after).0 ≡ true
    → in_flight after ≡ false
    → in_flight (ends b row after).1 ≡ false
answered true row after h k = cc
answered false row after h k = k

abbrev final_status : Bool → InvoiceStatus
final_status b = if b then InvoiceStatus.created else InvoiceStatus.needs_review

not_in_flight : (b : Bool) → (is_pending (final_status b) || is_creating (final_status b)) ≡ false
not_in_flight true = refl
not_in_flight false = refl

unlinked_may :
    (id : ℕ) (row : InvoiceRow) → row.kiot_viet_invoice_id ≡ none → may_link id row ≡ true
unlinked_may id row e = rw e refl

changed :
    (b : Bool) (x y : InvoiceRow)
    → b ≡ true
    → in_flight (some x) ≡ false
    → in_flight (some (if b then x else y)) ≡ false
changed true x y e h = h
changed false x y e h = cc

settle_found-answers :
    (now : ℕ) (row : InvoiceRow) (order : ℕ × Text) (complete : Bool)
    (detail : Result InvoiceDetail) (after : Option Stock) (found : List (ℕ × Bool))
    → row.kiot_viet_invoice_id ≡ none
    → has_answer (settle_found now row order complete detail after found).0 ≡ true
    → in_flight (settle_found now row order complete detail after found).1 ≡ false
unfolding settle_found mark_needs_review finalize_invoice
settle_found-answers now row order complete detail after [] e h =
    answered _ row (mark_needs_review verify_invoice (some row)) h (rw e refl)
settle_found-answers now row order complete (err x) after (one ∷ []) e h = cc
settle_found-answers now row order complete (ok d) after (one ∷ []) e h =
    let f = judge_invoice (noted complete row) d order.1 after in
    changed (may_link d.id row) _ row (unlinked_may d.id row e) (not_in_flight f.is_ok)
settle_found-answers now row order complete detail after (one ∷ other ∷ more) e h = rw e refl

settle_row-answers :
    (now : ℕ) (order : Option (ℕ × Text)) (lookup : Result InvoiceLookup)
    (detail : Result InvoiceDetail) (after : Option Stock) (row : InvoiceRow)
    → row.kiot_viet_invoice_id ≡ none
    → has_answer (settle_row now order lookup detail after row).0 ≡ true
    → in_flight (settle_row now order lookup detail after row).1 ≡ false
unfolding settle_row
settle_row-answers now none lookup detail after row e h = cc
settle_row-answers now (some order) (err x) detail after row e h = cc
settle_row-answers now (some order) (ok l) detail after row e h =
    go (is_pending row.status || is_creating row.status) h
  where
    go :
        (b : Bool)
        → has_answer
            (if b
              then settle_found now row order l.is_complete detail after
                  (keep_if not_cancelled l.invoices)
              else (unchanged, some row)).0
          ≡ true
        → in_flight
            (if b
              then settle_found now row order l.is_complete detail after
                  (keep_if not_cancelled l.invoices)
              else (unchanged, some row)).1
          ≡ false
    go true h = settle_found-answers now row order l.is_complete detail after _ e h
    go false h = cc

-- On an unlinked row, a verification that answers whether there is an invoice leaves no attempt in
-- flight.
pub verify_order_invoice_answers :
    (now : ℕ) (order : Option (ℕ × Text)) (lookup : Result InvoiceLookup)
    (detail : Result InvoiceDetail) (after : Option Stock) (row : InvoiceRow)
    → row.kiot_viet_invoice_id ≡ none
    → has_answer (verify_order_invoice now order lookup detail after (some row)).0 ≡ true
    → in_flight (verify_order_invoice now order lookup detail after (some row)).1 ≡ false
unfolding verify_order_invoice
verify_order_invoice_answers now order lookup detail after row e h =
    settle_row-answers now order lookup detail after row e h
