-- ===== src/OrderSync/StatusWebhook/Terminal.antt =====
-- What a status event may do to an order.
use store_kiotviet.Base.{
  ℕ, ◌≡◌, refl, Bool, true, false, Option, none, some, Result, ok, err, AppError, arith, ◌||◌,
}
use store_kiotviet.Text.{Text}
use store_kiotviet.OrderSync.Decision.{Row}
use store_kiotviet.OrderSync.Outcomes.{is_cancelled, record_cancelled, record_completed}
use store_kiotviet.OrderSync.StatusWebhook.{
  cancelled_in_shopify, fulfilled_in_shopify, apply_cancelled, apply_completed, apply_status,
  sync_kiot_viet_order_status, is_completed,
}

abbrev pub row_cancelled : Row → Bool
row_cancelled none = false
row_cancelled (some m) = is_cancelled m.status

abbrev pub row_completed : Row → Bool
row_completed none = false
row_completed (some m) = is_completed m.status

abbrev pub is_row : Row → Bool
is_row none = false
is_row (some m) = true

-- Whatever a status event read before its request, and whatever became of the row meanwhile: a row
-- that is cancelled when the event writes stays cancelled; an event that ends as cancelled leaves a
-- cancelled row, if there is one; one that ends as fulfilled leaves a completed row, or one that
-- was cancelled meanwhile; and an error changes nothing.
pub status_keeps_cancelled :
    (id : Option ℕ) (status : ℕ) (lower : Text) (app_invoice : Bool) (request : Result (Unit {0}))
    (later row : Row)
    → let (r, written) =
        sync_kiot_viet_order_status id status lower app_invoice request later row in
      (row_cancelled later ≡ true → row_cancelled written ≡ true)
      × (r ≡ ok cancelled_in_shopify → is_row later ≡ true → row_cancelled written ≡ true)
      × (r ≡ ok fulfilled_in_shopify
          → is_row later ≡ true
          → (row_completed written || row_cancelled later) ≡ true)
      × ((e : AppError) → r ≡ err e → written ≡ later)
unfolding sync_kiot_viet_order_status apply_status apply_cancelled apply_completed record_cancelled
    record_completed
status_keeps_cancelled none status lower app_invoice request later row =
    (λ h. h, λ h. cc, λ h. cc, λ e h. refl)
status_keeps_cancelled (some k) status lower app_invoice request later none =
    (λ h. ground arith, λ h i. ground arith, λ h i. ground arith, λ e h. ground arith)
status_keeps_cancelled (some k) status lower app_invoice request none (some m) =
    (λ h. ground arith, λ h i. cc, λ h i. cc, λ e h. ground arith)
status_keeps_cancelled (some k) status lower app_invoice (err e) (some l) (some m) =
    (λ h. ground arith, λ h i. ground arith, λ h i. ground arith, λ e h. ground arith)
status_keeps_cancelled (some k) status lower app_invoice (ok x) (some l) (some m) =
    (λ h. ground arith, λ h i. ground arith, λ h i. ground arith, λ e h. ground arith)
