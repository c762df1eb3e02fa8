-- ===== src/Returns/Once/Rows.antt =====
-- What each statement means for the row of one return: it settles it or not, and links it or not.
use store_kiotviet.Base.{
  ℕ, ◌≡◌, refl, inl, inr, ◌⊎◌, true, false, Option, none, some, List, arith, has_id, Bool-cases,
}
use store_kiotviet.Base.Int.{ℤ}
use store_kiotviet.Returns.Row.{
  Row, Status, claimed, decide_return_claim, claim_return, set_state, drop_claim, release,
  keep_amount, is_mine, mark_sending,
}
use store_kiotviet.Returns.Process.Settled.{
  is_settled, is_final, release-settled, drop_claim-settled, keep_amount-settled, set_state-settled,
}

abbrev pub refund_id : Row → Option ℕ
refund_id none = none
refund_id (some r) = r.financial_refund_id

-- A statement that never frees a settled row and links it, if at all, to `id`.
pub record Keeps (id : Option ℕ) (before after : Row) : Type 0 where
  pub settled : is_settled before ≡ true → is_settled after ≡ true
  pub link : (refund_id after ≡ refund_id before) ⊎ (refund_id after ≡ id)

pub unsettled :
    {id : Option ℕ} {before after : Row}
    → Keeps id before after
    → is_settled after ≡ false
    → is_settled before ≡ false
unsettled {id} {before} k h = elim (Bool-cases (is_settled before)) [
  | inl s ↦ let t = k.settled s in cc
  | inr s ↦ s
]

pub unchanged : (row : Row) → Keeps none row row
unchanged row = record { settled = λ h. h; link = inl refl }

pub nothing : (refunds : List ℕ) (k : ℕ) → none ≡ some k → has_id k refunds ≡ true
nothing refunds k h = cc

pub release-Keeps : (token : ℕ) (row : Row) → Keeps none row (release token row)
unfolding release
release-Keeps token none = unchanged none
release-Keeps token (some r) = record {
  settled = release-settled token (some r);
  link = inl (ground arith);
}

pub drop_claim-Keeps : (token : ℕ) (row : Row) → Keeps none row (drop_claim token row)
unfolding drop_claim
drop_claim-Keeps token none = unchanged none
drop_claim-Keeps token (some r) = record {
  settled = drop_claim-settled token (some r);
  link = inl (ground arith);
}

pub keep_amount-Keeps :
    (token : ℕ) (a : Option ℤ) (row : Row) → Keeps none row (keep_amount token a row)
unfolding keep_amount
keep_amount-Keeps token a none = unchanged none
keep_amount-Keeps token a (some r) = record {
  settled = keep_amount-settled token a (some r);
  link = inl (ground arith);
}

pub set_state-link :
    (token : ℕ) (s : Status) (id : Option ℕ) (row : Row)
    → (refund_id (set_state token s id row) ≡ refund_id row)
      ⊎ (refund_id (set_state token s id row) ≡ id)
unfolding set_state
set_state-link token s id none = inl refl
set_state-link token s none (some r) = inl (ground arith)
set_state-link token s (some id) (some r) = ground arith

pub set_state-Keeps :
    (token : ℕ) (s : Status) (id : Option ℕ) (row : Row)
    → is_final s ≡ true
    → Keeps id row (set_state token s id row)
set_state-Keeps token s id row f = record {
  settled = set_state-settled token s id row f;
  link = set_state-link token s id row;
}

pub claim_return-link :
    (now token : ℕ) (row : Row) → refund_id (claim_return now token row) ≡ refund_id row
unfolding claim_return
claim_return-link now token none = refl
claim_return-link now token (some r) = refl

pub mark_sending-link :
    (now token amount : ℕ) (row : Row)
    → refund_id (mark_sending now token amount row) ≡ refund_id row
unfolding mark_sending
mark_sending-link now token amount none = refl
mark_sending-link now token amount (some r) = ground arith

pub claimed-unsettled :
    (now : ℕ) (row : Row) → decide_return_claim now row ≡ claimed → is_settled row ≡ false
unfolding decide_return_claim
claimed-unsettled now none h = refl
claimed-unsettled now (some r) h = ground arith

pub mine-unsettled : (token : ℕ) (row : Row) → is_mine token row ≡ true → is_settled row ≡ false
mine-unsettled token none h = cc
mine-unsettled token (some r) h = ground arith
