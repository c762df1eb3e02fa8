-- ===== src/Returns/Once.antt =====
-- Jobs of lib/sync/return-sync.ts for one return in any interleaving, with crashes between any two
-- statements. The phases of a job are those of OrderSync.Race: it holds a claim, its refundCreate is
-- under way, it is gone while that is under way, or it has the id of the refund that Shopify made.
pub mod Rows
pub mod AtMostOne
use store_kiotviet.Base.{
  ℕ, ◌+◌, ◌≤◌, ◌≡◌, Bool, true, false, Option, none, some, List, [], ◌∷◌, ◌++◌, has_id,
}
use store_kiotviet.Base.Int.{ℤ}
use store_kiotviet.OrderSync.Race.{Phase, preparing, sending, orphaned, accepted}
use store_kiotviet.Returns.Row.{
  Row, Status, financial_refunded, needs_review, failed, Claim, claimed, reconcile,
  decide_return_claim, claim_return, set_state, drop_claim, release, keep_amount, is_mine,
  mark_sending,
}

-- `refunds` are those with the note of this return.
pub record World : Type 0 where
  pub row : Row
  pub now : ℕ
  pub next_token : ℕ
  pub jobs : List Phase
  pub refunds : List ℕ

abbrev pub initial : World
initial = record { row = none; now = 0; next_token = 0; jobs = []; refunds = [] }

abbrev claim_taken : World → World
claim_taken w = record w {
  row = claim_return w.now w.next_token w.row;
  next_token = w.next_token + 1;
  jobs = preparing w.next_token ∷ w.jobs;
}

pub data ReturnStep (w : World) : World → Type 0 where
  tick : (now : ℕ) → w.now ≤ now → ReturnStep w (record w { now = now })
  claim : decide_return_claim w.now w.row ≡ claimed → ReturnStep w (claim_taken w)
  claim_to_reconcile :
      (sent_at : Option ℕ)
      → decide_return_claim w.now w.row ≡ reconcile sent_at
      → ReturnStep w (claim_taken w)
  -- the evidence is for a person
  leave_to_review :
      (token : ℕ) (xs ys : List Phase)
      → w.jobs ≡ xs ++ (preparing token ∷ ys)
      → ReturnStep w (record w { row = set_state token needs_review none w.row; jobs = xs ++ ys })
  -- a refund with the note exists: its amount is noted and the row linked, in two statements
  note_amount :
      (token : ℕ) (amount : Option ℤ)
      → ReturnStep w (record w { row = keep_amount token amount w.row })
  link_existing :
      (token id : ℕ) (amount_matches : Bool) (xs ys : List Phase)
      → w.jobs ≡ xs ++ (preparing token ∷ ys)
      → has_id id w.refunds ≡ true
      → ReturnStep w (record w {
        row =
            set_state token
              (elim amount_matches [ true ↦ financial_refunded | false ↦ needs_review ])
              (some id)
              w.row;
        jobs = xs ++ ys;
      })
  -- the request is not visible yet, or something threw
  postpone : (token : ℕ) → ReturnStep w (record w { row = drop_claim token w.row })
  fail :
      (token : ℕ) (xs ys : List Phase)
      → w.jobs ≡ xs ++ (preparing token ∷ ys)
      → ReturnStep w (record w { row = release token w.row; jobs = xs ++ ys })
  -- the row is marked before the request is sent
  send :
      (token amount : ℕ) (xs ys : List Phase)
      → w.jobs ≡ xs ++ (preparing token ∷ ys)
      → is_mine token w.row ≡ true
      → ReturnStep w (record w {
        row = mark_sending w.now token amount w.row;
        jobs = xs ++ (sending token ∷ ys);
      })
  lose_claim :
      (token : ℕ) (xs ys : List Phase)
      → w.jobs ≡ xs ++ (preparing token ∷ ys)
      → is_mine token w.row ≡ false
      → ReturnStep w (record w { jobs = xs ++ ys })
  accept :
      (token id : ℕ) (xs ys : List Phase)
      → w.jobs ≡ xs ++ (sending token ∷ ys)
      → ReturnStep w (record w { jobs = xs ++ (accepted token id ∷ ys); refunds = id ∷ w.refunds })
  accept_orphan :
      (id : ℕ) (xs ys : List Phase)
      → w.jobs ≡ xs ++ (orphaned ∷ ys)
      → ReturnStep w (record w { jobs = xs ++ ys; refunds = id ∷ w.refunds })
  drop_orphan :
      (xs ys : List Phase)
      → w.jobs ≡ xs ++ (orphaned ∷ ys)
      → ReturnStep w (record w { jobs = xs ++ ys })
  -- a definite rejection: nothing was created
  reject :
      (token : ℕ) (xs ys : List Phase)
      → w.jobs ≡ xs ++ (sending token ∷ ys)
      → ReturnStep w (record w { row = set_state token failed none w.row; jobs = xs ++ ys })
  -- an unknown outcome while the request may still be under way, or after it was accepted
  time_out :
      (token : ℕ) (xs ys : List Phase)
      → w.jobs ≡ xs ++ (sending token ∷ ys)
      → ReturnStep w (record w { row = drop_claim token w.row; jobs = xs ++ (orphaned ∷ ys) })
  lose_reply :
      (token id : ℕ) (xs ys : List Phase)
      → w.jobs ≡ xs ++ (accepted token id ∷ ys)
      → ReturnStep w (record w { row = drop_claim token w.row; jobs = xs ++ ys })
  record_refund :
      (token id : ℕ) (xs ys : List Phase)
      → w.jobs ≡ xs ++ (accepted token id ∷ ys)
      → ReturnStep w
          (record w { row = set_state token financial_refunded (some id) w.row; jobs = xs ++ ys })
  -- the release after an exception, by a job that is done otherwise
  release_late : (token : ℕ) → ReturnStep w (record w { row = release token w.row })
  crash_preparing :
      (token : ℕ) (xs ys : List Phase)
      → w.jobs ≡ xs ++ (preparing token ∷ ys)
      → ReturnStep w (record w { jobs = xs ++ ys })
  crash_sending :
      (token : ℕ) (xs ys : List Phase)
      → w.jobs ≡ xs ++ (sending token ∷ ys)
      → ReturnStep w (record w { jobs = xs ++ (orphaned ∷ ys) })
  crash_accepted :
      (token id : ℕ) (xs ys : List Phase)
      → w.jobs ≡ xs ++ (accepted token id ∷ ys)
      → ReturnStep w (record w { jobs = xs ++ ys })

pub data ReturnReach (w : World) : World → Type 0 where
  here : ReturnReach w w
  next : {u v : World} → ReturnReach w u → ReturnStep u v → ReturnReach w v
