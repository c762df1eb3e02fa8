-- ===== src/OrderSync/Race.antt =====
-- Jobs for one Shopify order in any interleaving, with crashes at every point. A job runs the steps
-- of createMappedOrder one at a time, and the row may be moved by others in between. A request
-- that was sent can be accepted by KiotViet as long as it is under way, also after its job is gone.
pub mod Rows
pub mod Jobs
pub mod AtMostOne
use store_kiotviet.Base.{
  ℕ, ◌+◌, ◌≤◌, ◌≡◌, Bool, true, false, Option, none, some, List, [], ◌∷◌, ◌++◌, AppError, length,
  has_id,
}
use store_kiotviet.Shopify.{Order, OrderSettings}
use store_kiotviet.Prepare.{PreparedOrder}
use store_kiotviet.OrderSync.Decision.{Row, Mapping, Decision, create, Stage, decide_claim}
use store_kiotviet.OrderSync.Outcomes.{
  matches, claimed_by, sending_by, claim_row, release_claim, mark_creating, record_rejected,
  record_uncertain, record_created, record_recovered, record_unknown_outcome,
  record_unclaimed_failure, record_updated, record_cancelled, record_completed,
}

-- Where a job stands: it holds a claim, its request is under way, it is gone while its request is
-- under way, or it has the id of the order that KiotViet created.
pub data Phase : Type 0 where
  preparing sending : ℕ → Phase
  orphaned : Phase
  accepted : (token id : ℕ) → Phase

-- `orders` are the KiotViet orders that were created for this Shopify order.
pub record World : Type 0 where
  pub row : Row
  pub now : ℕ
  pub next_token : ℕ
  pub jobs : List Phase
  pub orders : List ℕ

abbrev pub initial : World
initial = record { row = none; now = 0; next_token = 0; jobs = []; orders = [] }

abbrev pub linked_id : Row → Option ℕ
linked_id none = none
linked_id (some m) = m.kiot_viet_order_id

pub data Step (w : World) : World → Type 0 where
  tick : (now : ℕ) → w.now ≤ now → Step w (record w { now = now })
  -- the claim transaction decides to create
  claim :
      (order : Order) (s : OrderSettings) (p : PreparedOrder)
      → decide_claim w.now order s w.row ≡ create p
      → Step w (record w {
        row = claim_row w.now w.next_token w.row;
        next_token = w.next_token + 1;
        jobs = preparing w.next_token ∷ w.jobs;
      })
  -- resolving the branch, the seller, the customer or a product failed
  fail :
      (token : ℕ) (e : AppError) (xs ys : List Phase)
      → w.jobs ≡ xs ++ (preparing token ∷ ys)
      → Step w (record w { row = release_claim token e w.row; jobs = xs ++ ys })
  -- the row is marked before the request is sent
  send :
      (token : ℕ) (xs ys : List Phase)
      → w.jobs ≡ xs ++ (preparing token ∷ ys)
      → matches (claimed_by token) w.row ≡ true
      → Step w
          (record w { row = mark_creating w.now token w.row; jobs = xs ++ (sending token ∷ ys) })
  -- another job took the claim over
  lose_claim :
      (token : ℕ) (xs ys : List Phase)
      → w.jobs ≡ xs ++ (preparing token ∷ ys)
      → matches (claimed_by token) w.row ≡ false
      → Step w (record w { jobs = xs ++ ys })
  accept :
      (token id : ℕ) (xs ys : List Phase)
      → w.jobs ≡ xs ++ (sending token ∷ ys)
      → Step w (record w { jobs = xs ++ (accepted token id ∷ ys); orders = id ∷ w.orders })
  accept_orphan :
      (id : ℕ) (xs ys : List Phase)
      → w.jobs ≡ xs ++ (orphaned ∷ ys)
      → Step w (record w { jobs = xs ++ ys; orders = id ∷ w.orders })
  drop_orphan :
      (xs ys : List Phase) → w.jobs ≡ xs ++ (orphaned ∷ ys) → Step w (record w { jobs = xs ++ ys })
  -- a definite rejection: nothing was created
  reject :
      (token : ℕ) (xs ys : List Phase)
      → w.jobs ≡ xs ++ (sending token ∷ ys)
      → Step w (record w { row = record_rejected token w.row; jobs = xs ++ ys })
  -- a timeout or a 5xx while the request may still be under way, or after it was accepted
  time_out :
      (token : ℕ) (xs ys : List Phase)
      → w.jobs ≡ xs ++ (sending token ∷ ys)
      → Step w (record w { row = record_uncertain token w.row; jobs = xs ++ (orphaned ∷ ys) })
  lose_reply :
      (token id : ℕ) (xs ys : List Phase)
      → w.jobs ≡ xs ++ (accepted token id ∷ ys)
      → Step w (record w { row = record_uncertain token w.row; jobs = xs ++ ys })
  record_id :
      (token id : ℕ) (xs ys : List Phase)
      → w.jobs ≡ xs ++ (accepted token id ∷ ys)
      → Step w (record w { row = record_created token id w.row; jobs = xs ++ ys })
  crash_preparing :
      (token : ℕ) (xs ys : List Phase)
      → w.jobs ≡ xs ++ (preparing token ∷ ys)
      → Step w (record w { jobs = xs ++ ys })
  crash_sending :
      (token : ℕ) (xs ys : List Phase)
      → w.jobs ≡ xs ++ (sending token ∷ ys)
      → Step w (record w { jobs = xs ++ (orphaned ∷ ys) })
  crash_accepted :
      (token id : ℕ) (xs ys : List Phase)
      → w.jobs ≡ xs ++ (accepted token id ∷ ys)
      → Step w (record w { jobs = xs ++ ys })
  -- the search of verifyUncertainOrder found an order that exists, or found none
  recover :
      (id : ℕ) → has_id id w.orders ≡ true → Step w (record w { row = record_recovered id w.row })
  give_up : Step w (record w { row = record_unknown_outcome w.row })
  note_failure :
      (stage : Stage) (e : AppError)
      → Step w (record w { row = record_unclaimed_failure w.now stage e w.row })
  -- an update, a cancellation or a completion of an order that was linked
  update : (id : ℕ) → linked_id w.row ≡ some id → Step w (record w { row = record_updated w.row })
  cancel : (id : ℕ) → linked_id w.row ≡ some id → Step w (record w { row = record_cancelled w.row })
  complete :
      (id : ℕ) → linked_id w.row ≡ some id → Step w (record w { row = record_completed w.row })

pub data Reach (w : World) : World → Type 0 where
  here : Reach w w
  next : {u v : World} → Reach w u → Step u v → Reach w v
