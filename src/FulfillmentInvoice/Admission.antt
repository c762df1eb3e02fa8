-- ===== src/FulfillmentInvoice/Admission.antt =====
-- At most one invoice job of an order will still run, whatever is requested and however jobs end.
use store_kiotviet.Base.{
  ℕ, ◌<◌, ◌≡◌, refl, arith, Bool, true, false, ◌||◌, Option, List, [], ◌∷◌, ◌++◌, if◌then◌else◌,
  any_of, keep_if, ==-self, length,
}
use store_kiotviet.Text.{Text}
use store_kiotviet.Text.Laws.{text_eq_refl}
use store_kiotviet.FulfillmentInvoice.{
  InvoiceJob, JobStatus, pending, processing, failed, is_active, bars, is_running, is_done, admit,
  TriggerSettings, PaymentState, Outbox, request_fulfillment_invoice,
}

abbrev pub active : ℕ → List InvoiceJob → ℕ
active order jobs = length (keep_if (is_active order) jobs)

-- The statements of repositories/jobs.ts that the worker makes on a job: it starts, also again after
-- a failure with attempts left, and it ends. What an administrator does by hand is no step.
pub data JobStep (j : InvoiceJob) : InvoiceJob → Type 0 where
  start :
      (attempt : ℕ)
      → is_running j.status ≡ true
      → JobStep j (record j { status = processing; attempts = attempt })
  retry :
      (attempt : ℕ)
      → j.status ≡ failed
      → j.attempts < j.max_attempts
      → JobStep j (record j { status = processing; attempts = attempt })
  fail : is_running j.status ≡ true → JobStep j (record j { status = failed })
  finish :
      (s : JobStatus)
      → is_running j.status ≡ true
      → is_done s ≡ true
      → JobStep j (record j { status = s })

-- Requests for invoices and the steps of jobs, in any order.
pub data OutboxStep (jobs : List InvoiceJob) : List InvoiceJob → Type 0 where
  request :
      (now order max_attempts : ℕ) (s : TriggerSettings) (key : Option Text)
      (mapped : Option (Option ℕ)) (live : Option PaymentState) (o : Outbox)
      → o.jobs ≡ jobs
      → OutboxStep jobs
          (request_fulfillment_invoice now order max_attempts s key mapped live o).1.jobs
  step :
      (xs ys : List InvoiceJob) (j k : InvoiceJob)
      → jobs ≡ xs ++ (j ∷ ys)
      → JobStep j k
      → OutboxStep jobs (xs ++ (k ∷ ys))

pub data OutboxReach (jobs : List InvoiceJob) : List InvoiceJob → Type 0 where
  here : OutboxReach jobs jobs
  next : {ks ls : List InvoiceJob} → OutboxReach jobs ks → OutboxStep ks ls → OutboxReach jobs ls

abbrev pub fresh_job : ℕ → ℕ → Text → InvoiceJob
fresh_job order m state = record {
  entity_id = order;
  trigger_state = state;
  status = pending;
  attempts = 0;
  max_attempts = m;
}

abbrev outcome : ℕ → ℕ → Text → List InvoiceJob → Bool → List InvoiceJob × Bool
outcome order m state jobs b = if b then (jobs, false) else (fresh_job order m state ∷ jobs, true)

barred :
    (order : ℕ) (state : Text) (xs ys : List InvoiceJob) (j : InvoiceJob)
    → bars order state j ≡ true
    → any_of (bars order state) (xs ++ (j ∷ ys)) ≡ true
barred order state [] ys j h = ground arith
barred order state (x ∷ xs) ys j h = let ih = barred order state xs ys j h in ground arith

own :
    (order m : ℕ) (state : Text) (s : JobStatus) (attempts : ℕ)
    → (is_running s || is_done s) ≡ true
    → bars order state (record (fresh_job order m state) { status = s; attempts = attempts }) ≡ true
own order m state s attempts h =
    let same = text_eq_refl state in let self = ==-self order in ground arith

-- While a job of the order is running or ended in the same state, the order is not admitted again
-- and no job changes.
pub admit_again :
    (order m n : ℕ) (state : Text) (xs ys : List InvoiceJob) (s : JobStatus) (attempts : ℕ)
    → (is_running s || is_done s) ≡ true
    → let ended = record (fresh_job order m state) { status = s; attempts = attempts } in
      admit order n state (xs ++ (ended ∷ ys)) ≡ (xs ++ (ended ∷ ys), false)
unfolding admit
admit_again order m n state xs ys s attempts h =
    let ended = record (fresh_job order m state) { status = s; attempts = attempts } in
    let bar = barred order state xs ys ended (own order m state s attempts h) in rw bar refl
