-- ===== src/OrderSync/Race/Rows.antt =====
-- What each statement and each decision means for the row of one order.
use store_kiotviet.Base.{
  ℕ, ◌≡◌, refl, ◌⊎◌, Bool, true, false, ◌&&◌, ◌||◌, not, Option, none, some, arith, AppError,
  is_some,
}
use store_kiotviet.Shopify.{Order, OrderSettings}
use store_kiotviet.Prepare.{PreparedOrder}
use store_kiotviet.OrderSync.Decision.{
  Row, Mapping, Status, pending_create, creating, create_failed, created, cancelled, completed,
  create, Stage, decide_claim, decide_status, decide_mapping,
}
use store_kiotviet.OrderSync.Outcomes.{
  matches, claimed_by, is_creating, is_pending_create, claim_row, release_claim, mark_creating,
  record_rejected, record_uncertain, record_created, record_recovered, record_unknown_outcome,
  record_unclaimed_failure, record_updated, record_cancelled, record_completed,
}
use store_kiotviet.OrderSync.Race.{linked_id}

-- A row that a job may still claim, or that a job holds without having sent anything.
abbrev pub is_idle_mapping : Mapping → Bool
is_idle_mapping m = not (is_some m.kiot_viet_order_id) && not (is_creating m.status)

abbrev pub is_idle : Row → Bool
is_idle none = true
is_idle (some m) = is_idle_mapping m

abbrev pub is_held : Row → Bool
is_held none = false
is_held (some m) = is_pending_create m.status || is_creating m.status

-- A decision to create is only taken on an idle row.
pub decide_status-creating :
    (now : ℕ) (order : Order) (s : OrderSettings) (m : Mapping) (st : Option Status)
    (p : PreparedOrder)
    → decide_status now order s m st ≡ create p
    → not (is_creating st) ≡ true
unfolding decide_status
decide_status-creating now order s m none p h = refl
decide_status-creating now order s m (some creating) p h = cc
decide_status-creating now order s m (some pending_create) p h = refl
decide_status-creating now order s m (some create_failed) p h = refl
decide_status-creating now order s m (some created) p h = refl
decide_status-creating now order s m (some cancelled) p h = refl
decide_status-creating now order s m (some completed) p h = refl

pub decide_mapping-idle :
    (now : ℕ) (order : Order) (s : OrderSettings) (m : Mapping) (id : Option ℕ) (p : PreparedOrder)
    → decide_mapping now order s m id ≡ create p
    → (not (is_some id) && not (is_creating m.status)) ≡ true
unfolding decide_mapping
decide_mapping-idle now order s m (some id) p h = cc
decide_mapping-idle now order s m none p h = decide_status-creating now order s m m.status p h

pub decide_claim-idle :
    (now : ℕ) (order : Order) (s : OrderSettings) (row : Row) (p : PreparedOrder)
    → decide_claim now order s row ≡ create p
    → is_idle row ≡ true
unfolding decide_claim
decide_claim-idle now order s none p h = refl
decide_claim-idle now order s (some m) p h =
    decide_mapping-idle now order s m m.kiot_viet_order_id p h

-- What a statement that may free or link the row leaves of it.
pub record Keeps (before after : Row) : Type 0 where
  pub idle : is_idle after ≡ true → is_idle before ≡ true
  pub link : linked_id after ≡ linked_id before
  pub held : is_held after ≡ true → is_held before ≡ true

pub release_claim-Keeps : (t : ℕ) (e : AppError) (row : Row) → Keeps row (release_claim t e row)
unfolding release_claim
release_claim-Keeps t e none = record { idle = λ h. h; link = refl; held = λ h. h }
release_claim-Keeps t e (some m) = ground arith

pub record_uncertain-Keeps : (t : ℕ) (row : Row) → Keeps row (record_uncertain t row)
unfolding record_uncertain
record_uncertain-Keeps t none = record { idle = λ h. h; link = refl; held = λ h. h }
record_uncertain-Keeps t (some m) = ground arith

pub record_unknown_outcome-Keeps : (row : Row) → Keeps row (record_unknown_outcome row)
unfolding record_unknown_outcome
record_unknown_outcome-Keeps none = record { idle = λ h. h; link = refl; held = λ h. h }
record_unknown_outcome-Keeps (some m) = ground arith

pub record_unclaimed_failure-Keeps :
    (now : ℕ) (stage : Stage) (e : AppError) (row : Row)
    → Keeps row (record_unclaimed_failure now stage e row)
unfolding record_unclaimed_failure
record_unclaimed_failure-Keeps now stage e none = record {
  idle = λ h. refl;
  link = refl;
  held = λ h. cc;
}
record_unclaimed_failure-Keeps now stage e (some m) = ground arith

-- An idle row is not linked.
pub idle→unlinked : (row : Row) → is_idle row ≡ true → linked_id row ≡ none
idle→unlinked none h = refl
idle→unlinked (some m) h = ground arith

pub claim_row-unlinked :
    (now t : ℕ) (row : Row) → is_idle row ≡ true → linked_id (claim_row now t row) ≡ none
unfolding claim_row
claim_row-unlinked now t none h = refl
claim_row-unlinked now t (some m) h = ground arith

-- The row that a job may mark is held by it.
pub claimed→held : (t : ℕ) (row : Row) → matches (claimed_by t) row ≡ true → is_held row ≡ true
claimed→held t none h = cc
claimed→held t (some m) h = ground arith

pub claimed→idle :
    (t : ℕ) (row : Row)
    → matches (claimed_by t) row ≡ true
    → linked_id row ≡ none
    → is_idle row ≡ true
claimed→idle t none h e = refl
claimed→idle t (some m) h e = ground arith

pub mark_creating-marks :
    (now t : ℕ) (row : Row)
    → matches (claimed_by t) row ≡ true
    → (is_idle (mark_creating now t row) ≡ false)
      × (linked_id (mark_creating now t row) ≡ linked_id row)
unfolding mark_creating
mark_creating-marks now t none h = cc
mark_creating-marks now t (some m) h = ground arith

pub record_rejected-link :
    (t : ℕ) (row : Row)
    → (linked_id (record_rejected t row) ≡ linked_id row)
      × (is_held (record_rejected t row) ≡ true → is_held row ≡ true)
unfolding record_rejected
record_rejected-link t none = (refl, λ h. h)
record_rejected-link t (some m) = (ground arith, λ h. ground arith)

-- Linking the row to an order.
pub record Links (id : ℕ) (before after : Row) : Type 0 where
  pub idle : is_idle after ≡ true → is_idle before ≡ true
  pub link : (k : ℕ) → linked_id after ≡ some k → (k ≡ id) ⊎ (linked_id before ≡ some k)
  pub held : is_held after ≡ true → (is_held before ≡ true) × (linked_id after ≡ linked_id before)

pub record_created-Links : (t id : ℕ) (row : Row) → Links id row (record_created t id row)
unfolding record_created
record_created-Links t id none = record { idle = λ h. h; link = λ k h. cc; held = λ h. cc }
record_created-Links t id (some m) = record {
  idle = λ h. ground arith;
  link = λ k h. ground arith;
  held = λ h. ground arith;
}

pub record_recovered-Links : (id : ℕ) (row : Row) → Links id row (record_recovered id row)
unfolding record_recovered
record_recovered-Links id none = record { idle = λ h. h; link = λ k h. cc; held = λ h. cc }
record_recovered-Links id (some m) = record {
  idle = λ h. ground arith;
  link = λ k h. ground arith;
  held = λ h. ground arith;
}

-- What a job does to the row of a linked order.
pub record_updated-link : (row : Row) → linked_id (record_updated row) ≡ linked_id row
unfolding record_updated
record_updated-link none = refl
record_updated-link (some m) = refl

pub record_cancelled-link : (row : Row) → linked_id (record_cancelled row) ≡ linked_id row
unfolding record_cancelled
record_cancelled-link none = refl
record_cancelled-link (some m) = refl

pub record_completed-link : (row : Row) → linked_id (record_completed row) ≡ linked_id row
unfolding record_completed
record_completed-link none = refl
record_completed-link (some m) = ground arith

pub record_updated-held : (row : Row) → is_held (record_updated row) ≡ true → is_held row ≡ true
unfolding record_updated
record_updated-held none h = h
record_updated-held (some m) h = ground arith

pub record_cancelled-held : (row : Row) → is_held (record_cancelled row) ≡ true → is_held row ≡ true
unfolding record_cancelled
record_cancelled-held none h = h
record_cancelled-held (some m) h = ground arith

pub record_completed-held : (row : Row) → is_held (record_completed row) ≡ true → is_held row ≡ true
unfolding record_completed
record_completed-held none h = h
record_completed-held (some m) h = ground arith
