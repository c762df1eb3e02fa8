-- ===== src/OrderSync/StatusWebhook.antt =====
-- syncKiotVietOrderStatus: a KiotViet order that was cancelled or completed is so in Shopify. `lower`
-- is what `toLocaleLowerCase("vi")` makes of the status text.
pub mod Terminal
mod Tests
use store_kiotviet.Base.{
  ℕ, Bool, true, false, ◌&&◌, ◌||◌, Option, none, some, List, [], ◌∷◌, Result, ok, err, AppError,
  if◌then◌else◌, ◌==◌,
}
use store_kiotviet.Text.{Text, codes}
use store_kiotviet.OrderSync.Decision.{Row, Mapping, Status, completed}
use store_kiotviet.OrderSync.Outcomes.{is_cancelled, record_cancelled, record_completed}

abbrev pub starts_with : Text → Text → Bool
starts_with [] s = true
starts_with (a ∷ w) [] = false
starts_with (a ∷ w) (b ∷ s) = a == b && starts_with w s

-- `s.includes(w)`
abbrev pub includes : Text → Text → Bool
includes w [] = starts_with w []
includes w (c ∷ s) = starts_with w (c ∷ s) || includes w s

pub data NoUpdate : Type 0 where
  no_terminal_status already_cancelled shopify_order_cancelled already_completed : NoUpdate
  completed_by_app_invoice : NoUpdate

pub data StatusResult : Type 0 where
  not_updated : NoUpdate → StatusResult
  cancelled_in_shopify fulfilled_in_shopify : StatusResult

unfoldable pub says_cancelled : ℕ → Text → Bool
says_cancelled status lower =
    status == 4 || includes (codes "hủy") lower || includes (codes "huy") lower

unfoldable pub says_completed : ℕ → Text → Bool
says_completed status lower =
    status == 3 || includes (codes "completed") lower || includes (codes "hoàn thành") lower

abbrev pub is_completed : Option Status → Bool
is_completed (some completed) = true
is_completed _ = false

-- `m` is the row that the event read, `later` the row after the request, which other jobs may have
-- changed meanwhile, and `request` how cancelling the Shopify order ended.
unfoldable pub apply_cancelled :
    Result (Unit {0}) → (later : Row) → Mapping → Result StatusResult × Row
apply_cancelled request later m =
    if is_cancelled m.status then (ok (not_updated already_cancelled), later) else elim request [
      | err e ↦ (err e, later)
      | ok _ ↦ (ok cancelled_in_shopify, record_cancelled later)
    ]

-- `request` is how fulfilling the Shopify order ended.
unfoldable pub apply_completed :
    (app_invoice : Bool) → Result (Unit {0}) → (later : Row) → Mapping → Result StatusResult × Row
apply_completed app_invoice request later m =
    if is_cancelled m.status
    then (ok (not_updated shopify_order_cancelled), later)
    else if is_completed m.status
    then (ok (not_updated already_completed), later)
    else if app_invoice
    then (ok (not_updated completed_by_app_invoice), later)
    else elim request [
      | err e ↦ (err e, later)
      | ok _ ↦ (ok fulfilled_in_shopify, record_completed later)
    ]

unfoldable pub apply_status :
    (cancel app_invoice : Bool)
    → Result (Unit {0})
    → (later : Row) → Row
    → Result StatusResult × Row
unfolding apply_cancelled apply_completed
apply_status cancel app_invoice request later none = (err AppError.mapping, later)
apply_status cancel app_invoice request later (some m) =
    if cancel then apply_cancelled request later m else apply_completed app_invoice request later m

-- A status that is missing is 0.
-- `id` is the id in the event, `none` where it has none; `row` is the row of the order with it.
unfoldable pub sync_kiot_viet_order_status :
    (id : Option ℕ) (status : ℕ) (lower : Text) (app_invoice : Bool)
    → Result (Unit {0})
    → (later row : Row) → Result StatusResult × Row
unfolding apply_status says_cancelled says_completed
sync_kiot_viet_order_status none status lower app_invoice request later row =
    (err AppError.mapping, later)
sync_kiot_viet_order_status (some id) status lower app_invoice request later row =
    let cancel = says_cancelled status lower in
    let complete = says_completed status lower in
    if cancel || complete
    then apply_status cancel app_invoice request later row
    else (ok (not_updated no_terminal_status), later)
