-- ===== src/FulfillmentInvoice/Linked.antt =====
-- The row of invoice_mappings of one order under every statement of lib/sync/invoice-sync.ts and
-- lib/sync/fulfillment-invoice.ts, in any order.
pub mod Stays
use store_kiotviet.Base.{
  ℕ, ◌≡◌, refl, sym, ◌∙◌, subst, arith, Bool, true, false, not, Option, none, some, Result, ok, err,
  if◌then◌else◌, ◌==◌, is_some, List, [], ◌∷◌, ◌||◌, ◌&&◌, has_id,
}
use store_kiotviet.Text.{Text}
use store_kiotviet.AutoInvoice.{
  InvoiceRow, MaybeRow, InvoiceStatus, Stage, Stock, InvoiceReconciliation, AutoInvoiceDecision,
  claim_auto_invoice, block_auto_invoice, mark_auto_invoice_sending, fail_auto_invoice,
  attach_kiot_viet_order_to_invoice, mark_needs_review,
}
use store_kiotviet.AutoInvoice.Checks.{InvoiceDetail}
use store_kiotviet.AutoInvoice.Finalize.{finalize_invoice, judge_invoice, may_link, link_to}
use store_kiotviet.FulfillmentInvoice.{record_blocked}
use store_kiotviet.FulfillmentInvoice.Process.{consume_deferral, after_push}

-- One statement, by any job.
pub data RowStep (row : MaybeRow) : MaybeRow → Type 0 where
  claim :
      (now token : ℕ) (d : AutoInvoiceDecision) → RowStep row (claim_auto_invoice now token d row).0
  block : (token : ℕ) (stage : Stage) → RowStep row (block_auto_invoice token stage row)
  mark_sending :
      (token : ℕ) (r : InvoiceReconciliation)
      → RowStep row (mark_auto_invoice_sending token r row).0
  fail : (token : ℕ) → RowStep row (fail_auto_invoice token row)
  attach : (order : ℕ × Text) → RowStep row (attach_kiot_viet_order_to_invoice order row)
  review : (stage : Stage) → RowStep row (mark_needs_review stage row)
  finalize :
      (read : InvoiceRow) (d : InvoiceDetail) (order : ℕ × Text) (after : Option Stock)
      → RowStep row (finalize_invoice read d order after row)
  not_eligible : (now : ℕ) (stage : Stage) → RowStep row (record_blocked now stage row)
  run_deferred : RowStep row (consume_deferral row)
  push_stock :
      (r : InvoiceRow) (result : Result (Unit {0}))
      → row ≡ some r
      → RowStep row (some (after_push result r))

pub data RowReach (row : MaybeRow) : MaybeRow → Type 0 where
  here : RowReach row row
  next : {a b : MaybeRow} → RowReach row a → RowStep a b → RowReach row b

abbrev pub linked_invoice : MaybeRow → Option ℕ
linked_invoice none = none
linked_invoice (some r) = r.kiot_viet_invoice_id

-- A linked row has a final status, and a created one is linked.
abbrev is_final : InvoiceStatus → Bool
is_final InvoiceStatus.created = true
is_final InvoiceStatus.needs_review = true
is_final _ = false

abbrev is_created : InvoiceStatus → Bool
is_created InvoiceStatus.created = true
is_created _ = false

abbrev row_fits : InvoiceRow → Bool
row_fits r =
    (if is_some r.kiot_viet_invoice_id then is_final r.status else not (is_created r.status))

abbrev pub fits : MaybeRow → Bool
fits none = true
fits (some r) = row_fits r

-- The token on a linked row is one whose request was answered.
abbrev pub owned : List ℕ → MaybeRow → Bool
owned answered none = true
owned answered (some r) =
    not (is_some r.kiot_viet_invoice_id)
    || (elim r.claim_token [ none ↦ true | some t ↦ has_id t answered ])

-- What a statement keeps.
pub record Keeps (a b : MaybeRow) : Type 0 where
  pub own : (l : List ℕ) → fits a ≡ true → owned l a ≡ true → owned l b ≡ true
  pub fit : fits a ≡ true → fits b ≡ true
  pub link : (id : ℕ) → fits a ≡ true → linked_invoice a ≡ some id → linked_invoice b ≡ some id

claim-Keeps :
    (now token : ℕ) (d : AutoInvoiceDecision) (row : MaybeRow)
    → Keeps row (claim_auto_invoice now token d row).0
unfolding claim_auto_invoice
claim-Keeps now token d none = record {
  own = λ l f h. ground arith;
  fit = λ h. ground arith;
  link = λ id h e. cc;
}
claim-Keeps now token d (some r) = record {
  own = λ l f h. ground arith;
  fit = λ h. ground arith;
  link = λ id h e. ground arith;
}

block-Keeps :
    (token : ℕ) (stage : Stage) (row : MaybeRow) → Keeps row (block_auto_invoice token stage row)
unfolding block_auto_invoice
block-Keeps token stage none = record { own = λ l f h. h; fit = λ h. h; link = λ id h e. e }
block-Keeps token stage (some r) = record {
  own = λ l f h. ground arith;
  fit = λ h. ground arith;
  link = λ id h e. ground arith;
}

mark_sending-Keeps :
    (token : ℕ) (rec : InvoiceReconciliation) (row : MaybeRow)
    → Keeps row (mark_auto_invoice_sending token rec row).0
unfolding mark_auto_invoice_sending
mark_sending-Keeps token rec none = record { own = λ l f h. h; fit = λ h. h; link = λ id h e. e }
mark_sending-Keeps token rec (some r) = record {
  own = λ l f h. ground arith;
  fit = λ h. ground arith;
  link = λ id h e. ground arith;
}

fail-Keeps : (token : ℕ) (row : MaybeRow) → Keeps row (fail_auto_invoice token row)
unfolding fail_auto_invoice
fail-Keeps token none = record { own = λ l f h. h; fit = λ h. h; link = λ id h e. e }
fail-Keeps token (some r) = record {
  own = λ l f h. ground arith;
  fit = λ h. ground arith;
  link = λ id h e. ground arith;
}

attach-Keeps :
    (order : ℕ × Text) (row : MaybeRow) → Keeps row (attach_kiot_viet_order_to_invoice order row)
unfolding attach_kiot_viet_order_to_invoice
attach-Keeps order none = record { own = λ l f h. h; fit = λ h. h; link = λ id h e. e }
attach-Keeps order (some r) = record {
  own = λ l f h. ground arith;
  fit = λ h. ground arith;
  link = λ id h e. ground arith;
}

review-Keeps : (stage : Stage) (row : MaybeRow) → Keeps row (mark_needs_review stage row)
unfolding mark_needs_review
review-Keeps stage none = record { own = λ l f h. h; fit = λ h. h; link = λ id h e. e }
review-Keeps stage (some r) = record {
  own = λ l f h. ground arith;
  fit = λ h. ground arith;
  link = λ id h e. ground arith;
}

final :
    (b : Bool) → is_final (if b then InvoiceStatus.created else InvoiceStatus.needs_review) ≡ true
final true = refl
final false = refl

either_row :
    (b : Bool) (x y : InvoiceRow)
    → row_fits x ≡ true
    → row_fits y ≡ true
    → row_fits (if b then x else y) ≡ true
either_row true x y f g = f
either_row false x y f g = g

same_link :
    (new id : ℕ) (r : InvoiceRow)
    → r.kiot_viet_invoice_id ≡ some id
    → may_link new r ≡ true
    → some new ≡ some id
same_link new id r e m = go r.kiot_viet_invoice_id e m
  where
    go :
        (o : Option ℕ)
        → o ≡ some id
        → (elim o [ none ↦ true | some linked ↦ linked == new ]) ≡ true
        → some new ≡ some id
    go none e m = cc
    go (some k) e m = let eq : k ≡ new = ground arith in rw (sym eq) e

relinked :
    (new id : ℕ) (r x : InvoiceRow)
    → r.kiot_viet_invoice_id ≡ some id
    → x.kiot_viet_invoice_id ≡ some new
    → (if may_link new r then x else r).kiot_viet_invoice_id ≡ some id
relinked new id r x e f = go (may_link new r) refl
  where
    go : (b : Bool) → may_link new r ≡ b → (if b then x else r).kiot_viet_invoice_id ≡ some id
    go true m = f ∙ same_link new id r e m
    go false m = e

or_true : (b : Bool) → (b || true) ≡ true
or_true true = refl
or_true false = refl

finalized_owned :
    (b : Bool) (l : List ℕ) (x y : InvoiceRow)
    → x.claim_token ≡ none
    → owned l (some y) ≡ true
    → owned l (some (if b then x else y)) ≡ true
finalized_owned true l x y e h = rw e (or_true (not (is_some x.kiot_viet_invoice_id)))
finalized_owned false l x y e h = h

finalize-Keeps :
    (read : InvoiceRow) (d : InvoiceDetail) (order : ℕ × Text) (after : Option Stock)
    (row : MaybeRow)
    → Keeps row (finalize_invoice read d order after row)
unfolding finalize_invoice
finalize-Keeps read d order after none = record {
  own = λ l f h. h;
  fit = λ h. h;
  link = λ id h e. e;
}
finalize-Keeps read d order after (some r) =
    let f = judge_invoice read d order.1 after in
    record {
      own = λ l g h. finalized_owned (may_link d.id r) l (link_to d.id order f r) r refl h;
      fit = either_row (may_link d.id r) (link_to d.id order f r) r (final f.is_ok);
      link = λ id h e. relinked d.id id r (link_to d.id order f r) e refl;
    }

not_eligible-Keeps :
    (now : ℕ) (stage : Stage) (row : MaybeRow) → Keeps row (record_blocked now stage row)
unfolding record_blocked
not_eligible-Keeps now stage none = record {
  own = λ l f h. refl;
  fit = λ h. refl;
  link = λ id h e. cc;
}
not_eligible-Keeps now stage (some r) = record {
  own = λ l f h. ground arith;
  fit = λ h. ground arith;
  link = λ id h e. ground arith;
}

run_deferred-Keeps : (row : MaybeRow) → Keeps row (consume_deferral row)
unfolding consume_deferral
run_deferred-Keeps none = record { own = λ l f h. h; fit = λ h. h; link = λ id h e. e }
run_deferred-Keeps (some r) = record {
  own = λ l f h. ground arith;
  fit = λ h. ground arith;
  link = λ id h e. ground arith;
}

push_stock-Keeps :
    (r : InvoiceRow) (result : Result (Unit {0})) → Keeps (some r) (some (after_push result r))
unfolding after_push
push_stock-Keeps r (ok done) = record { own = λ l f h. h; fit = λ h. h; link = λ id h e. e }
push_stock-Keeps r (err x) = record { own = λ l f h. h; fit = λ h. h; link = λ id h e. e }

pub RowStep-Keeps : {a b : MaybeRow} → RowStep a b → Keeps a b
RowStep-Keeps {a} (claim now token d) = claim-Keeps now token d a
RowStep-Keeps {a} (block token stage) = block-Keeps token stage a
RowStep-Keeps {a} (mark_sending token r) = mark_sending-Keeps token r a
RowStep-Keeps {a} (fail token) = fail-Keeps token a
RowStep-Keeps {a} (attach order) = attach-Keeps order a
RowStep-Keeps {a} (review stage) = review-Keeps stage a
RowStep-Keeps {a} (finalize read d order after) = finalize-Keeps read d order after a
RowStep-Keeps {a} (not_eligible now stage) = not_eligible-Keeps now stage a
RowStep-Keeps {a} run_deferred = run_deferred-Keeps a
RowStep-Keeps (push_stock r result e) =
    let k = push_stock-Keeps r result in
    record {
      own = λ l f h. k.own l (subst (λ x. fits x ≡ true) e f) (subst (λ x. owned l x ≡ true) e h);
      fit = λ h. k.fit (subst (λ x. fits x ≡ true) e h);
      link = λ id h f.
          k.link id (subst (λ x. fits x ≡ true) e h) (subst (λ x. linked_invoice x ≡ some id) e f);
    }

RowReach-fits : {row : MaybeRow} → RowReach none row → fits row ≡ true
RowReach-fits here = refl
RowReach-fits (next r s) = (RowStep-Keeps s).fit (RowReach-fits r)

-- In every reachable row, one that is created is linked to an invoice.
pub created_is_linked :
    {r : InvoiceRow}
    → RowReach none (some r)
    → r.status ≡ InvoiceStatus.created
    → is_some r.kiot_viet_invoice_id ≡ true
created_is_linked {r} q e = go r.kiot_viet_invoice_id r.status (RowReach-fits q) e
  where
    go :
        (o : Option ℕ) (s : InvoiceStatus)
        → (if is_some o then is_final s else not (is_created s)) ≡ true
        → s ≡ InvoiceStatus.created
        → is_some o ≡ true
    go (some k) s h e = refl
    go none s h e = let f = subst (λ x. not (is_created x) ≡ true) e h in cc
