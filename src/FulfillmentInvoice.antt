-- ===== src/FulfillmentInvoice.antt =====
-- lib/sync/fulfillment-invoice.ts: when an invoice job is admitted, what a job records, and how long
-- an order or a failed stock push waits.
pub mod Admission
pub mod Delays
pub mod Process
pub mod Linked
mod Tests
use store_kiotviet.Base.{
  ℕ, zero, suc, ◌+◌, ◌*◌, min, Bool, true, false, ◌&&◌, ◌||◌, not, Option, none, some, List, [],
  ◌∷◌, ◌++◌, if◌then◌else◌, ltb, leb, ◌==◌, is_some, any_of, keep_if, length, Result, ok, err,
  AppError,
}
use store_kiotviet.Text.{Text, text_eq}
use store_kiotviet.Shopify.{
  InvoiceTrigger, shopify_fulfilled, shopify_paid, disabled, FinancialStatus, paid,
  partially_refunded, refunded,
}
use store_kiotviet.AutoInvoice.{
  InvoiceRow, MaybeRow, InvoiceStatus, Stage, fulfillment_trigger, invoice_index,
  invoice_index_retried, shopify_inventory, update_row, new_row, is_open,
}

pub data FulfillmentStatus : Type 0 where
  fulfilled partially_fulfilled other_fulfillment : FulfillmentStatus

-- The live state of a Shopify order; a date is `none` where it is missing or no date.
pub record PaymentState : Type 0 where
  pub updated_at : Text
  pub created_at : Option ℕ
  pub is_cancelled : Bool
  pub financial_status : FinancialStatus
  pub fulfillment_status : FulfillmentStatus

-- The settings of the trigger, and their version.
pub record TriggerSettings : Type 0 where
  pub trigger : Option InvoiceTrigger
  pub enabled_at : Option ℕ
  pub version : Text

pub data TriggerDecision : Type 0 where
  off historical blocked partial waiting ready : TriggerDecision

abbrev is_since : Option ℕ → Option ℕ → Bool
is_since (some created) (some enabled) = leb enabled created
is_since _ _ = false

abbrev is_refunded : FinancialStatus → Bool
is_refunded refunded = true
is_refunded _ = false

abbrev pub has_money : FinancialStatus → Bool
has_money paid = true
has_money partially_refunded = true
has_money _ = false

abbrev is_partial : FulfillmentStatus → Bool
is_partial partially_fulfilled = true
is_partial _ = false

abbrev is_fulfilled : FulfillmentStatus → Bool
is_fulfilled fulfilled = true
is_fulfilled _ = false

-- The payment suffices for one trigger, the other waits for the fulfillment.
abbrev on_payment : InvoiceTrigger → Bool
on_payment shopify_paid = true
on_payment _ = false

abbrev is_off : InvoiceTrigger → Bool
is_off disabled = true
is_off _ = false

unfoldable pub decide_enabled : InvoiceTrigger → Option ℕ → PaymentState → TriggerDecision
decide_enabled trigger enabled_at live =
    if is_off trigger
    then off
    else if not (is_since live.created_at enabled_at)
    then historical
    else if live.is_cancelled || is_refunded live.financial_status
    then blocked
    else if is_partial live.fulfillment_status
    then partial
    else if not (has_money live.financial_status)
    then waiting
    else if on_payment trigger || is_fulfilled live.fulfillment_status
    then ready
    else waiting

unfoldable pub invoice_trigger_decision : TriggerSettings → PaymentState → TriggerDecision
unfolding decide_enabled
invoice_trigger_decision s live = elim s.trigger [
  | none ↦ off
  | some trigger ↦ decide_enabled trigger s.enabled_at live
]

abbrev bar : ℕ
bar = 124

-- The order version and the settings version, and the key of a retry.
abbrev pub invoice_trigger_state : PaymentState → Text → Option Text → Text
invoice_trigger_state live version none = live.updated_at ++ (bar ∷ version)
invoice_trigger_state live version (some key) = live.updated_at ++ (bar ∷ version) ++ (bar ∷ key)

-- recordBlocked: an uncertain or linked invoice is left alone.
abbrev pub may_block : InvoiceRow → Bool
may_block r = not (is_some r.kiot_viet_invoice_id) && is_open r.status

unfoldable pub record_blocked : (now : ℕ) → Stage → MaybeRow → MaybeRow
record_blocked now stage none =
    some (record (new_row now) { status = InvoiceStatus.blocked; failure_stage = some stage })
record_blocked now stage (some r) = some (
    if may_block r
    then record r { status = InvoiceStatus.blocked; failure_stage = some stage }
    else r)

pub data JobStatus : Type 0 where
  pending processing completed failed manual_review skipped : JobStatus

-- An invoice job in sync_jobs.
pub record InvoiceJob : Type 0 where
  pub entity_id : ℕ
  pub trigger_state : Text
  pub status : JobStatus
  pub attempts : ℕ
  pub max_attempts : ℕ

abbrev pub is_running : JobStatus → Bool
is_running pending = true
is_running processing = true
is_running _ = false

abbrev is_failed : JobStatus → Bool
is_failed failed = true
is_failed _ = false

abbrev pub is_done : JobStatus → Bool
is_done completed = true
is_done manual_review = true
is_done skipped = true
is_done _ = false

-- A job of the order that will still run.
abbrev pub is_active : ℕ → InvoiceJob → Bool
is_active order j =
    j.entity_id == order
    && (is_running j.status || is_failed j.status && ltb j.attempts j.max_attempts)

-- A job of the order that keeps another from being admitted.
abbrev pub bars : ℕ → Text → InvoiceJob → Bool
bars order state j =
    j.entity_id == order
    && (is_running j.status
        || is_failed j.status && ltb j.attempts j.max_attempts
        || is_done j.status && text_eq j.trigger_state state)

unfoldable pub admit : (order max_attempts : ℕ) → Text → List InvoiceJob → List InvoiceJob × Bool
admit order max_attempts state jobs = if any_of (bars order state) jobs then (jobs, false) else (
  record {
    entity_id = order;
    trigger_state = state;
    status = pending;
    attempts = 0;
    max_attempts = max_attempts;
  }
      ∷ jobs,
  true,
)

-- When the rescan looks at an order again.
pub data CheckAt : Type 0 where
  never : CheckAt
  at_time : ℕ → CheckAt

abbrev pub minutes : ℕ → ℕ
minutes n = n * 60000

abbrev pub double : ℕ → ℕ → ℕ
double zero x = x
double (suc n) x = 2 * double n x

-- A job of the order that used up its attempts.
abbrev is_exhausted : ℕ → InvoiceJob → Bool
is_exhausted order j = j.entity_id == order && is_failed j.status && leb j.max_attempts j.attempts

abbrev pub exhausted : ℕ → List InvoiceJob → ℕ
exhausted order jobs = length (keep_if (is_exhausted order) jobs)

-- parkOrder: half an hour, doubled for each exhausted job, and at most a day.
unfoldable pub park_delay : (order : ℕ) → List InvoiceJob → ℕ
park_delay order jobs = min (minutes 1440) (double (min 6 (exhausted order jobs)) (minutes 30))

-- syncInvoiceInventory: five minutes, doubled for each failed push, and at most six hours.
unfoldable pub stock_retry_delay : (attempts : ℕ) → ℕ
stock_retry_delay attempts = min (minutes 360) (double (min 7 attempts) (minutes 5))

pub data InvoiceAdmission : Type 0 where
  trigger_disabled not_synced invoiced missing historical_order blocked_order partial_order
        waiting_order admitted already_admitted :
      InvoiceAdmission

-- What the request reads and writes: the linked order (with the invoice id, if any), the jobs, the
-- invoice row and the time of the next check.
pub record Outbox : Type 0 where
  pub jobs : List InvoiceJob
  pub row : MaybeRow
  pub check_at : CheckAt

abbrev parked : (now order : ℕ) → Outbox → Outbox
parked now order o = record o { check_at = at_time (now + park_delay order o.jobs) }

admit_ready : (now order max_attempts : ℕ) → Text → Outbox → InvoiceAdmission × Outbox
admit_ready now order max_attempts state o =
    let (jobs, is_new) = admit order max_attempts state o.jobs in
    (if is_new then admitted else already_admitted, parked now order (record o { jobs = jobs }))

request_decided :
    (now order max_attempts : ℕ) → Text → Outbox → TriggerDecision → InvoiceAdmission × Outbox
unfolding admit_ready
request_decided now order max_attempts state o off = (trigger_disabled, o)
request_decided now order max_attempts state o historical =
    (historical_order, record o { check_at = never })
request_decided now order max_attempts state o blocked = (
  blocked_order,
  record o { row = record_blocked now fulfillment_trigger o.row; check_at = never },
)
request_decided now order max_attempts state o partial =
    (partial_order, record o { row = record_blocked now fulfillment_trigger o.row })
request_decided now order max_attempts state o waiting = (waiting_order, o)
request_decided now order max_attempts state o ready = admit_ready now order max_attempts state o

request_live :
    (now order max_attempts : ℕ)
    → TriggerSettings
    → Option Text
    → Outbox
    → Option PaymentState
    → InvoiceAdmission × Outbox
unfolding request_decided
request_live now order max_attempts s key o none = (missing, o)
request_live now order max_attempts s key o (some live) =
    request_decided now order max_attempts (invoice_trigger_state live s.version key) o
      (invoice_trigger_decision s live)

request_mapped :
    (now order max_attempts : ℕ)
    → TriggerSettings
    → Option Text
    → Outbox
    → Option PaymentState
    → (mapped : Option (Option ℕ)) → InvoiceAdmission × Outbox
unfolding request_live
request_mapped now order max_attempts s key o live none = (not_synced, o)
request_mapped now order max_attempts s key o live (some (some invoice)) =
    (invoiced, record o { check_at = never })
request_mapped now order max_attempts s key o live (some none) =
    request_live now order max_attempts s key o live

abbrev is_trigger_off : Option InvoiceTrigger → Bool
is_trigger_off none = true
is_trigger_off (some t) = is_off t

-- `mapped` is the synced order with its invoice id, `live` what Shopify answers.
unfoldable pub request_fulfillment_invoice :
    (now order max_attempts : ℕ)
    → TriggerSettings
    → Option Text
    → (mapped : Option (Option ℕ)) → Option PaymentState
    → Outbox
    → InvoiceAdmission × Outbox
unfolding request_mapped
request_fulfillment_invoice now order max_attempts s key mapped live o =
    if is_trigger_off s.trigger
    then (trigger_disabled, o)
    else request_mapped now order max_attempts s key o live mapped
