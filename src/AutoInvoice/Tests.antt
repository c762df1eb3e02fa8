-- ===== src/AutoInvoice/Tests.antt =====
-- An invoice of two lines of one product that is found and checked.
use store_kiotviet.Base.{refl, true, false, some, [], ◌∷◌}
use store_kiotviet.Base.Int.{◌-ℤ◌, ◌+ℤ◌}
use store_kiotviet.Text.{codes}
use store_kiotviet.AutoInvoice.Movement.{verify_stock_movement}
use store_kiotviet.AutoInvoice.Checks.{check_invoice}
use store_kiotviet.AutoInvoice.Samples.{after, in_flight_row, the_invoice}
use store_kiotviet.AutoInvoice.Finalize.{judge_invoice, InvoiceLookup}
use store_kiotviet.AutoInvoice.Finalize.Verified.{IsInOrder, judge_invoice-IsInOrder}

judge_invoice-IsInOrder_example : IsInOrder in_flight_row the_invoice (some after)
unfolding judge_invoice check_invoice ◌+ℤ◌ verify_stock_movement ◌-ℤ◌
judge_invoice-IsInOrder_example =
    judge_invoice-IsInOrder in_flight_row the_invoice (codes "DH8") (some after) refl

abbrev found : InvoiceLookup
found = record { invoices = (30, true) ∷ (31, false) ∷ []; is_complete = true }
