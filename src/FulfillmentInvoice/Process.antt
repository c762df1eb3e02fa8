-- ===== src/FulfillmentInvoice/Process.antt =====
-- processFulfillmentInvoice: one run of an admitted invoice job. The plan, its application and the
-- stock push are arguments: the plan is lib/recovery/kiotviet-invoice-recovery.ts.
use store_kiotviet.Base.{
  ℕ, ◌≡◌, arith, Bool, true, false, ◌&&◌, ◌||◌, not, Option, none, some, List, [], ◌∷◌,
  if◌then◌else◌, is_some, any_of, Result, ok, err, AppError,
}
use store_kiotviet.Text.{Text, codes}
use store_kiotviet.OrderSync.StatusWebhook.{includes}
use store_kiotviet.AutoInvoice.{
  InvoiceRow, MaybeRow, InvoiceStatus, Stage, fulfillment_trigger, invoice_index,
  invoice_index_retried, automatic_validation, shopify_inventory, is_open, update_row,
}
use store_kiotviet.FulfillmentInvoice.{
  TriggerSettings, PaymentState, TriggerDecision, off, historical, blocked, partial, waiting, ready,
  invoice_trigger_decision, record_blocked,
}

pub data PlanAction : Type 0 where
  nothing_to_do : PlanAction
  blocked_by : (reasons : Text) → PlanAction
  to_apply : PlanAction

-- What the run meets: the index, the floor of the order, the plan, whether the settings changed
-- during it, what applying it does to the row, and the stock push.
pub record Course : Type 0 where
  pub is_index_usable : Bool
  pub has_floor : Bool
  pub plan : Result PlanAction
  pub settings_changed : Bool
  pub apply : MaybeRow → Result Bool × MaybeRow
  pub push : Result (Unit {0})

abbrev pub transient_reasons : List Text
transient_reasons =
    codes "order_not_synced" ∷ codes "invoice_in_flight" ∷ codes "invoice_lookup_incomplete" ∷ []

abbrev is_transient : Text → Bool
is_transient reasons = any_of (λ code. includes code reasons) transient_reasons

abbrev is_stage_index : Option Stage → Bool
is_stage_index (some invoice_index) = true
is_stage_index _ = false

abbrev is_blocked : InvoiceStatus → Bool
is_blocked InvoiceStatus.blocked = true
is_blocked _ = false

-- The deferral is consumed when the job runs.
unfoldable pub consume_deferral : MaybeRow → MaybeRow
consume_deferral =
    update_row (λ r. is_blocked r.status && is_stage_index r.failure_stage)
      (λ r. record r { failure_stage = some invoice_index_retried })

abbrev is_created : InvoiceStatus → Bool
is_created InvoiceStatus.created = true
is_created _ = false

abbrev is_stage_stock : Option Stage → Bool
is_stage_stock (some shopify_inventory) = true
is_stage_stock _ = false

-- syncInvoiceInventory on the row, after the push.
unfoldable pub after_push : Result (Unit {0}) → InvoiceRow → InvoiceRow
after_push (ok done) r = record r {
  failure_stage = if is_stage_stock r.failure_stage then none else r.failure_stage;
}
after_push (err e) r = record r {
  failure_stage = if is_created r.status then some shopify_inventory else r.failure_stage;
}

abbrev Run : Type 0
Run = Result (Unit {0}) × MaybeRow

abbrev push_result : Result (Unit {0}) → InvoiceStatus → Result (Unit {0})
push_result (err e) status = err e
push_result (ok done) status = if is_created status then ok tt else err AppError.conflict

finish : Result (Unit {0}) → MaybeRow → Run
unfolding after_push
finish push none = (err AppError.retryable, none)
finish push (some r) =
    if is_some r.kiot_viet_invoice_id
    then (push_result push r.status, some (after_push push r))
    else (err AppError.retryable, some r)

after_apply : Result (Unit {0}) → Result Bool × MaybeRow → Run
unfolding finish
after_apply push (err e, row) = (err e, row)
after_apply push (ok false, row) = (err AppError.retryable, row)
after_apply push (ok true, row) = finish push row

follow_plan : (now : ℕ) → Course → Result PlanAction → MaybeRow → Run
unfolding after_apply
follow_plan now c (err e) row = (err e, row)
follow_plan now c (ok nothing_to_do) row = finish c.push row
follow_plan now c (ok (blocked_by reasons)) row =
    if is_transient reasons
    then (err AppError.retryable, row)
    else (err AppError.conflict, record_blocked now automatic_validation row)
follow_plan now c (ok to_apply) row =
    if c.settings_changed then (err AppError.conflict, row) else after_apply c.push (c.apply row)

-- Without an index the job is put off, unless an attempt may have been sent before.
abbrev may_be_sent : MaybeRow → Bool
may_be_sent none = false
may_be_sent (some r) = not (is_open r.status)

process_ready : (now : ℕ) → Course → MaybeRow → Run
unfolding follow_plan
process_ready now c row =
    if c.is_index_usable || c.has_floor
    then follow_plan now c c.plan (consume_deferral row)
    else if may_be_sent row
    then (err AppError.retryable, row)
    else (ok tt, record_blocked now invoice_index row)

process_decided : (now : ℕ) → Course → MaybeRow → TriggerDecision → Run
unfolding process_ready
process_decided now c row off = (ok tt, row)
process_decided now c row historical = (ok tt, row)
process_decided now c row waiting = (ok tt, row)
process_decided now c row partial = (ok tt, record_blocked now fulfillment_trigger row)
process_decided now c row blocked = (ok tt, record_blocked now fulfillment_trigger row)
process_decided now c row ready = process_ready now c row

unfoldable pub process_fulfillment_invoice :
    (now : ℕ)
    → TriggerSettings
    → Option PaymentState
    → Course
    → MaybeRow
    → Result (Unit {0}) × MaybeRow
unfolding process_decided
process_fulfillment_invoice now s none c row = (err AppError.conflict, row)
process_fulfillment_invoice now s (some live) c row =
    process_decided now c row (invoice_trigger_decision s live)

-- A row with an invoice that passed its checks.
abbrev pub is_invoiced : MaybeRow → Bool
is_invoiced none = false
is_invoiced (some r) = is_created r.status && is_some r.kiot_viet_invoice_id

finish-invoiced :
    (push : Result (Unit {0})) (row : MaybeRow)
    → (finish push row).0 ≡ ok tt
    → is_invoiced (finish push row).1 ≡ true
unfolding finish after_push
finish-invoiced push none h = cc
finish-invoiced (err e) (some r) h = ground arith
finish-invoiced (ok done) (some r) h = ground arith

after_apply-invoiced :
    (push : Result (Unit {0})) (a : Result Bool × MaybeRow)
    → (after_apply push a).0 ≡ ok tt
    → is_invoiced (after_apply push a).1 ≡ true
unfolding after_apply
after_apply-invoiced push (err e, row) h = cc
after_apply-invoiced push (ok false, row) h = cc
after_apply-invoiced push (ok true, row) h = finish-invoiced push row h

pick :
    (b : Bool) (x y : Run)
    → (x.0 ≡ ok tt → is_invoiced x.1 ≡ true)
    → (y.0 ≡ ok tt → is_invoiced y.1 ≡ true)
    → (if b then x else y).0 ≡ ok tt
    → is_invoiced (if b then x else y).1 ≡ true
pick true x y f g = f
pick false x y f g = g

follow_plan-invoiced :
    (now : ℕ) (c : Course) (plan : Result PlanAction) (row : MaybeRow)
    → (follow_plan now c plan row).0 ≡ ok tt
    → is_invoiced (follow_plan now c plan row).1 ≡ true
unfolding follow_plan
follow_plan-invoiced now c (err e) row h = cc
follow_plan-invoiced now c (ok nothing_to_do) row h = finish-invoiced c.push row h
follow_plan-invoiced now c (ok (blocked_by reasons)) row h =
    pick (is_transient reasons) _ _ (λ h. cc) (λ h. cc) h
follow_plan-invoiced now c (ok to_apply) row h =
    pick c.settings_changed _ _ (λ h. cc) (after_apply-invoiced c.push (c.apply row)) h

-- When the trigger is ready and duplicates can be looked up, a run that ends without an error
-- leaves a created row that is linked to an invoice.
pub process_fulfillment_invoice_done :
    (now : ℕ) (s : TriggerSettings) (live : PaymentState) (c : Course) (row : MaybeRow)
    → invoice_trigger_decision s live ≡ ready
    → (c.is_index_usable || c.has_floor) ≡ true
    → (process_fulfillment_invoice now s (some live) c row).0 ≡ ok tt
    → is_invoiced (process_fulfillment_invoice now s (some live) c row).1 ≡ true
unfolding process_fulfillment_invoice process_decided process_ready
process_fulfillment_invoice_done now s live c row r i =
    rw (r, i) (follow_plan-invoiced now c c.plan (consume_deferral row))
