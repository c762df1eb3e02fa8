-- ===== src/FulfillmentInvoice/Linked/Stays.antt =====
-- The row of invoice_mappings of one order under every statement of lib/sync/invoice-sync.ts,
-- lib/sync/fulfillment-invoice.ts and lib/recovery/kiotviet-invoice-recovery.ts, in any order.
use store_kiotviet.Base.{ℕ, ◌≡◌, refl, arith, Bool, true, false, none, some, List, [], ◌∷◌, has_id}
use store_kiotviet.AutoInvoice.{MaybeRow}
use store_kiotviet.AutoInvoice.Recovery.{
  RecoveryClaim, reset_uncertain, claim_recovery, release_recovery, record_invoice_rejected,
  record_invoice_uncertain, record_invoice_created, record_invoice_found, record_invoices_found,
}
use store_kiotviet.FulfillmentInvoice.Linked.{
  RowStep, RowStep-Keeps, Keeps, linked_invoice, fits, owned,
}

-- `answered` are the claim tokens of the recoveries whose request for an invoice was settled.
pub record LinkWorld : Type 0 where
  pub row : MaybeRow
  pub answered : List ℕ

abbrev pub no_invoice : LinkWorld
no_invoice = record { row = none; answered = [] }

-- The request of a recovery is settled once: refused, answered with an id, or found by its search.
pub data LinkStep (w : LinkWorld) : LinkWorld → Type 0 where
  statement : {row : MaybeRow} → RowStep w.row row → LinkStep w (record w { row = row })
  reset_by_hand :
      (same_version : Bool) → LinkStep w (record w { row = reset_uncertain same_version w.row })
  recover :
      (now token : ℕ) (same_version : Bool) (c : RecoveryClaim)
      → LinkStep w (record w { row = claim_recovery now token same_version c w.row })
  let_go :
      (token : ℕ) (blocks : Bool)
      → LinkStep w (record w { row = release_recovery token blocks w.row })
  leave_open : (token : ℕ) → LinkStep w (record w { row = record_invoice_uncertain token w.row })
  refuse :
      (token : ℕ)
      → has_id token w.answered ≡ false
      → LinkStep w
          (record { row = record_invoice_rejected token w.row; answered = token ∷ w.answered })
  answer :
      (token id : ℕ)
      → has_id token w.answered ≡ false
      → LinkStep w
          (record { row = record_invoice_created token id w.row; answered = token ∷ w.answered })
  find_one :
      (token id : ℕ)
      → has_id token w.answered ≡ false
      → LinkStep w
          (record { row = record_invoice_found token id w.row; answered = token ∷ w.answered })
  find_more : (token : ℕ) → LinkStep w (record w { row = record_invoices_found token w.row })

pub data LinkReach (w : LinkWorld) : LinkWorld → Type 0 where
  start : LinkReach w w
  then_step : {u v : LinkWorld} → LinkReach w u → LinkStep u v → LinkReach w v

-- The rows that fit and the tokens on linked ones, and what a step keeps of them.
record IsFit (w : LinkWorld) : Type 0 where
  fit : fits w.row ≡ true
  own : owned w.answered w.row ≡ true

record Preserves (a b : LinkWorld) : Type 0 where
  same : IsFit b
  link : (id : ℕ) → linked_invoice a.row ≡ some id → linked_invoice b.row ≡ some id

statement-Preserves :
    (w : LinkWorld) (row : MaybeRow)
    → IsFit w
    → Keeps w.row row
    → Preserves w (record w { row = row })
statement-Preserves w row f k = record {
  same = record { fit = k.fit f.fit; own = k.own w.answered f.fit f.own };
  link = λ id e. k.link id f.fit e;
}

reset-Keeps : (v : Bool) (row : MaybeRow) → Keeps row (reset_uncertain v row)
unfolding reset_uncertain
reset-Keeps v none = record {
  own = λ l f h. ground arith;
  fit = λ h. ground arith;
  link = λ id h e. cc;
}
reset-Keeps v (some r) = record {
  own = λ l f h. ground arith;
  fit = λ h. ground arith;
  link = λ id h e. ground arith;
}

recover-Keeps :
    (now token : ℕ) (v : Bool) (c : RecoveryClaim) (row : MaybeRow)
    → Keeps row (claim_recovery now token v c row)
unfolding claim_recovery
recover-Keeps now token v c none = record {
  own = λ l f h. ground arith;
  fit = λ h. ground arith;
  link = λ id h e. cc;
}
recover-Keeps now token v c (some r) = record {
  own = λ l f h. ground arith;
  fit = λ h. ground arith;
  link = λ id h e. ground arith;
}

let_go-Keeps : (token : ℕ) (b : Bool) (row : MaybeRow) → Keeps row (release_recovery token b row)
unfolding release_recovery
let_go-Keeps token b none = record {
  own = λ l f h. ground arith;
  fit = λ h. ground arith;
  link = λ id h e. cc;
}
let_go-Keeps token b (some r) = record {
  own = λ l f h. ground arith;
  fit = λ h. ground arith;
  link = λ id h e. ground arith;
}

leave_open-Keeps : (token : ℕ) (row : MaybeRow) → Keeps row (record_invoice_uncertain token row)
unfolding record_invoice_uncertain
leave_open-Keeps token none = record {
  own = λ l f h. ground arith;
  fit = λ h. ground arith;
  link = λ id h e. cc;
}
leave_open-Keeps token (some r) = record {
  own = λ l f h. ground arith;
  fit = λ h. ground arith;
  link = λ id h e. ground arith;
}

find_more-Keeps : (token : ℕ) (row : MaybeRow) → Keeps row (record_invoices_found token row)
unfolding record_invoices_found
find_more-Keeps token none = record {
  own = λ l f h. ground arith;
  fit = λ h. ground arith;
  link = λ id h e. cc;
}
find_more-Keeps token (some r) = record {
  own = λ l f h. ground arith;
  fit = λ h. ground arith;
  link = λ id h e. ground arith;
}

refuse-Preserves :
    (token : ℕ) (answered : List ℕ) (row : MaybeRow)
    → fits row ≡ true
    → owned answered row ≡ true
    → has_id token answered ≡ false
    → Preserves
        (record { row = row; answered = answered })
        (record { row = record_invoice_rejected token row; answered = token ∷ answered })
unfolding record_invoice_rejected
refuse-Preserves token answered none f o h = record {
  same = record { fit = refl; own = refl };
  link = λ id e. cc;
}
refuse-Preserves token answered (some r) f o h = record {
  same = record { fit = ground arith; own = ground arith };
  link = λ k e. ground arith;
}

answer-Preserves :
    (token id : ℕ) (answered : List ℕ) (row : MaybeRow)
    → fits row ≡ true
    → owned answered row ≡ true
    → has_id token answered ≡ false
    → Preserves
        (record { row = row; answered = answered })
        (record { row = record_invoice_created token id row; answered = token ∷ answered })
unfolding record_invoice_created
answer-Preserves token id answered none f o h = record {
  same = record { fit = refl; own = refl };
  link = λ id e. cc;
}
answer-Preserves token id answered (some r) f o h = record {
  same = record { fit = ground arith; own = ground arith };
  link = λ k e. ground arith;
}

find_one-Preserves :
    (token id : ℕ) (answered : List ℕ) (row : MaybeRow)
    → fits row ≡ true
    → owned answered row ≡ true
    → has_id token answered ≡ false
    → Preserves
        (record { row = row; answered = answered })
        (record { row = record_invoice_found token id row; answered = token ∷ answered })
unfolding record_invoice_found
find_one-Preserves token id answered none f o h = record {
  same = record { fit = refl; own = refl };
  link = λ id e. cc;
}
find_one-Preserves token id answered (some r) f o h = record {
  same = record { fit = ground arith; own = ground arith };
  link = λ k e. ground arith;
}

LinkStep-Preserves : {a b : LinkWorld} → IsFit a → LinkStep a b → Preserves a b
LinkStep-Preserves {a} f (statement {row} s) = statement-Preserves a row f (RowStep-Keeps s)
LinkStep-Preserves {a} f (reset_by_hand v) = statement-Preserves a _ f (reset-Keeps v a.row)
LinkStep-Preserves {a} f (recover now token v c) =
    statement-Preserves a _ f (recover-Keeps now token v c a.row)
LinkStep-Preserves {a} f (let_go token b) = statement-Preserves a _ f (let_go-Keeps token b a.row)
LinkStep-Preserves {a} f (leave_open token) =
    statement-Preserves a _ f (leave_open-Keeps token a.row)
LinkStep-Preserves {a} f (refuse token h) = refuse-Preserves token a.answered a.row f.fit f.own h
LinkStep-Preserves {a} f (answer token id h) =
    answer-Preserves token id a.answered a.row f.fit f.own h
LinkStep-Preserves {a} f (find_one token id h) =
    find_one-Preserves token id a.answered a.row f.fit f.own h
LinkStep-Preserves {a} f (find_more token) = statement-Preserves a _ f (find_more-Keeps token a.row)

LinkReach-IsFit : {w : LinkWorld} → LinkReach no_invoice w → IsFit w
LinkReach-IsFit start = record { fit = refl; own = refl }
LinkReach-IsFit (then_step r s) = (LinkStep-Preserves (LinkReach-IsFit r) s).same

reach-on : {u w : LinkWorld} → LinkReach no_invoice u → LinkReach u w → LinkReach no_invoice w
reach-on r start = r
reach-on r (then_step q s) = then_step (reach-on r q) s

-- Once the invoice row of an order names a KiotViet invoice, no statement of invoice-sync.ts,
-- fulfillment-invoice.ts or the invoice recovery changes that link, in any order of such
-- statements, where each recovery settles its own request once: refused, answered with an id, or
-- found by its search.
pub link_stays :
    {w later : LinkWorld} (id : ℕ)
    → LinkReach no_invoice w
    → linked_invoice w.row ≡ some id
    → LinkReach w later
    → linked_invoice later.row ≡ some id
link_stays id r e start = e
link_stays id r e (then_step q s) =
    (LinkStep-Preserves (LinkReach-IsFit (reach-on r q)) s).link id (link_stays id r e q)
