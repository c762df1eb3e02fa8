-- ===== src/Returns/Once/AtMostOne.antt =====
-- Whatever the interleaving, Shopify is never asked for a second refund of a return.
use store_kiotviet.Base.{
  ℕ, ◌+◌, ◌≤◌, ◌≡◌, refl, sym, ◌∙◌, inl, inr, true, false, Option, none, some, List, [], ◌∷◌, ◌++◌,
  arith, length, has_id,
}
use store_kiotviet.OrderSync.Race.{Phase, preparing, sending, orphaned, accepted}
use store_kiotviet.OrderSync.Race.Jobs.{
  Exists, Exists-append, Exists-more, Exists-at, fewer_at, has_id-more, length-zero, requests,
  requests-append, requests_at, sole,
}
use store_kiotviet.Returns.Row.{
  Row, financial_refunded, needs_review, failed, claimed, decide_return_claim,
}
use store_kiotviet.Returns.Process.Settled.{is_settled, claim_return-settled, mark_sending-settled}
use store_kiotviet.Returns.Once.{
  World, initial, ReturnStep, tick, claim, claim_to_reconcile, leave_to_review, note_amount,
  link_existing, postpone, fail, send, lose_claim, accept, accept_orphan, drop_orphan, reject,
  time_out, lose_reply, record_refund, release_late, crash_preparing, crash_sending, crash_accepted,
  ReturnReach, here, next,
}
use store_kiotviet.Returns.Once.Rows.{
  refund_id, Keeps, unsettled, unchanged, nothing, release-Keeps, drop_claim-Keeps,
  keep_amount-Keeps, set_state-link, set_state-Keeps, claim_return-link, mark_sending-link,
  claimed-unsettled, mine-unsettled,
}

pub record IsSafe (w : World) : Type 0 where
  -- at most one refund exists or may still come to exist
  pub one : length w.refunds + requests w.jobs ≤ 1
  -- while nothing was sent there is none of either
  pub unsent : is_settled w.row ≡ false → length w.refunds + requests w.jobs ≡ 0
  pub link : (id : ℕ) → refund_id w.row ≡ some id → has_id id w.refunds ≡ true
  pub in_hand : Exists w.refunds w.jobs

-- Any step that sends nothing.
keep-IsSafe :
    {w : World} (id : Option ℕ) (row : Row) (jobs : List Phase)
    → IsSafe w
    → Keeps id w.row row
    → ((k : ℕ) → id ≡ some k → has_id k w.refunds ≡ true)
    → requests jobs ≤ requests w.jobs
    → Exists w.refunds jobs
    → IsSafe (record w { row = row; jobs = jobs })
keep-IsSafe {w} id row jobs safe k known fewer hand = record {
  one = omega (arith, safe.one);
  unsent = λ h. omega (arith, safe.unsent (unsettled k h), fewer);
  link = λ i e. elim k.link [
    | inl same ↦ safe.link i (sym same ∙ e)
    | inr new ↦ known i (sym new ∙ e)
  ];
  in_hand = hand;
}

-- A job ends.
drop-IsSafe :
    {w : World} (id : Option ℕ) (row : Row) (xs ys : List Phase) (p : Phase)
    → IsSafe w
    → Keeps id w.row row
    → ((k : ℕ) → id ≡ some k → has_id k w.refunds ≡ true)
    → w.jobs ≡ xs ++ (p ∷ ys)
    → (Exists w.refunds (p ∷ ys) → Exists w.refunds ys)
    → IsSafe (record w { row = row; jobs = xs ++ ys })
drop-IsSafe {w} id row xs ys p safe k known e tail =
    let (left, right) = Exists-at w.refunds w.jobs xs ys p e safe.in_hand in
    keep-IsSafe id row (xs ++ ys) safe k known (fewer_at w.jobs xs ys p e)
      (Exists-append w.refunds xs ys left (tail right))

-- A job goes while its request is under way.
orphan-IsSafe :
    {w : World} (row : Row) (token : ℕ) (xs ys : List Phase)
    → IsSafe w
    → Keeps none w.row row
    → w.jobs ≡ xs ++ (sending token ∷ ys)
    → IsSafe (record w { row = row; jobs = xs ++ (orphaned ∷ ys) })
orphan-IsSafe {w} row token xs ys safe k e =
    let (left, right) = Exists-at w.refunds w.jobs xs ys (sending token) e safe.in_hand in
    keep-IsSafe none row (xs ++ (orphaned ∷ ys)) safe k (nothing w.refunds)
      (omega
        (arith, requests_at w.jobs xs ys (sending token) e, requests-append xs (orphaned ∷ ys)))
      (Exists-append w.refunds xs (orphaned ∷ ys) left right)

pub ReturnStep-IsSafe : {w v : World} → ReturnStep w v → IsSafe w → IsSafe v
ReturnStep-IsSafe (tick now h) safe = record {
  one = safe.one;
  unsent = safe.unsent;
  link = safe.link;
  in_hand = safe.in_hand;
}
ReturnStep-IsSafe {w} (claim d) safe =
    let fresh = safe.unsent (claimed-unsettled w.now w.row d) in
    record {
      one = omega (arith, safe.one);
      unsent = λ h. omega (arith, fresh);
      link = λ id e. safe.link id (sym (claim_return-link w.now w.next_token w.row) ∙ e);
      in_hand = safe.in_hand;
    }
ReturnStep-IsSafe {w} (claim_to_reconcile t d) safe = record {
  one = omega (arith, safe.one);
  unsent = λ h. let s = claim_return-settled w.now w.next_token t w.row d in cc;
  link = λ id e. safe.link id (sym (claim_return-link w.now w.next_token w.row) ∙ e);
  in_hand = safe.in_hand;
}
ReturnStep-IsSafe {w} (leave_to_review token xs ys q) safe =
    drop-IsSafe none _ xs ys (preparing token) safe
      (set_state-Keeps token needs_review none w.row refl) (nothing w.refunds) q (λ h. h)
ReturnStep-IsSafe {w} (note_amount token amount) safe =
    keep-IsSafe none _ w.jobs safe (keep_amount-Keeps token amount w.row) (nothing w.refunds)
      (omega arith) safe.in_hand
ReturnStep-IsSafe {w} (link_existing token id true xs ys q known) safe =
    drop-IsSafe (some id) _ xs ys (preparing token) safe
      (set_state-Keeps token financial_refunded (some id) w.row refl) (λ k e. ground arith) q
      (λ h. h)
ReturnStep-IsSafe {w} (link_existing token id false xs ys q known) safe =
    drop-IsSafe (some id) _ xs ys (preparing token) safe
      (set_state-Keeps token needs_review (some id) w.row refl) (λ k e. ground arith) q (λ h. h)
ReturnStep-IsSafe {w} (postpone token) safe =
    keep-IsSafe none _ w.jobs safe (drop_claim-Keeps token w.row) (nothing w.refunds) (omega arith)
      safe.in_hand
ReturnStep-IsSafe {w} (release_late token) safe =
    keep-IsSafe none _ w.jobs safe (release-Keeps token w.row) (nothing w.refunds) (omega arith)
      safe.in_hand
ReturnStep-IsSafe {w} (fail token xs ys q) safe =
    drop-IsSafe none _ xs ys (preparing token) safe (release-Keeps token w.row) (nothing w.refunds)
      q (λ h. h)
ReturnStep-IsSafe {w} (send token amount xs ys q mine) safe =
    let before = safe.unsent (mine-unsettled token w.row mine) in
    let after = mark_sending-settled w.now token amount w.row mine in
    let (left, right) = Exists-at w.refunds w.jobs xs ys (preparing token) q safe.in_hand in
    record {
      one = omega (
        arith,
        before,
        requests_at w.jobs xs ys (preparing token) q,
        requests-append xs (sending token ∷ ys),
      );
      unsent = λ h. cc;
      link = λ id e. safe.link id (sym (mark_sending-link w.now token amount w.row) ∙ e);
      in_hand = Exists-append w.refunds xs (sending token ∷ ys) left right;
    }
ReturnStep-IsSafe {w} (lose_claim token xs ys q h) safe =
    drop-IsSafe none _ xs ys (preparing token) safe (unchanged w.row) (nothing w.refunds) q (λ h. h)
ReturnStep-IsSafe {w} (accept token id xs ys q) safe =
    let (left, right) = Exists-at w.refunds w.jobs xs ys (sending token) q safe.in_hand in
    let before = requests_at w.jobs xs ys (sending token) q in
    record {
      one = omega (arith, safe.one, before, requests-append xs (accepted token id ∷ ys));
      unsent = λ h. absurd (omega (arith, safe.unsent h, before));
      link = λ k e. has_id-more k id w.refunds (safe.link k e);
      in_hand =
          Exists-append (id ∷ w.refunds) xs (accepted token id ∷ ys)
            (Exists-more id w.refunds xs left) (ground arith, Exists-more id w.refunds ys right);
    }
ReturnStep-IsSafe {w} (accept_orphan id xs ys q) safe =
    let (left, right) = Exists-at w.refunds w.jobs xs ys orphaned q safe.in_hand in
    let before = requests_at w.jobs xs ys orphaned q in
    record {
      one = omega (arith, safe.one, before, requests-append xs ys);
      unsent = λ h. absurd (omega (arith, safe.unsent h, before));
      link = λ k e. has_id-more k id w.refunds (safe.link k e);
      in_hand = Exists-more id w.refunds (xs ++ ys) (Exists-append w.refunds xs ys left right);
    }
ReturnStep-IsSafe {w} (drop_orphan xs ys q) safe =
    drop-IsSafe none _ xs ys orphaned safe (unchanged w.row) (nothing w.refunds) q (λ h. h)
ReturnStep-IsSafe {w} (reject token xs ys q) safe =
    let (left, right) = Exists-at w.refunds w.jobs xs ys (sending token) q safe.in_hand in
    let before = requests_at w.jobs xs ys (sending token) q in
    record {
      one = omega (arith, safe.one, before, requests-append xs ys);
      unsent = λ h. omega (arith, safe.one, before, requests-append xs ys);
      link = λ k e. elim (set_state-link token failed none w.row) [
        | inl same ↦ safe.link k (sym same ∙ e)
        | inr new ↦ cc
      ];
      in_hand = Exists-append w.refunds xs ys left right;
    }
ReturnStep-IsSafe {w} (time_out token xs ys q) safe =
    orphan-IsSafe _ token xs ys safe (drop_claim-Keeps token w.row) q
ReturnStep-IsSafe {w} (lose_reply token id xs ys q) safe =
    drop-IsSafe none _ xs ys (accepted token id) safe (drop_claim-Keeps token w.row)
      (nothing w.refunds) q (λ h. h.1)
ReturnStep-IsSafe {w} (record_refund token id xs ys q) safe =
    let (left, right) = Exists-at w.refunds w.jobs xs ys (accepted token id) q safe.in_hand in
    drop-IsSafe (some id) _ xs ys (accepted token id) safe
      (set_state-Keeps token financial_refunded (some id) w.row refl)
      (λ k e. let exists = right.0 in ground arith) q (λ h. h.1)
ReturnStep-IsSafe {w} (crash_preparing token xs ys q) safe =
    drop-IsSafe none _ xs ys (preparing token) safe (unchanged w.row) (nothing w.refunds) q (λ h. h)
ReturnStep-IsSafe {w} (crash_sending token xs ys q) safe =
    orphan-IsSafe _ token xs ys safe (unchanged w.row) q
ReturnStep-IsSafe {w} (crash_accepted token id xs ys q) safe =
    drop-IsSafe none _ xs ys (accepted token id) safe (unchanged w.row) (nothing w.refunds) q
      (λ h. h.1)

initial-IsSafe : IsSafe initial
initial-IsSafe = record {
  one = omega arith;
  unsent = λ h. omega arith;
  link = λ id e. cc;
  in_hand = tt;
}

pub ReturnReach-IsSafe : {w : World} → ReturnReach initial w → IsSafe w
ReturnReach-IsSafe here = initial-IsSafe
ReturnReach-IsSafe (next r s) = ReturnStep-IsSafe s (ReturnReach-IsSafe r)

-- In every world that any interleaving of jobs for one KiotViet return reaches, crashes, lost
-- replies and takeovers included, the Shopify refunds of the return and the requests that can still
-- create one are together at most one.
pub refunds-le-one : {w : World} → ReturnReach initial w → length w.refunds + requests w.jobs ≤ 1
refunds-le-one r = (ReturnReach-IsSafe r).one

-- In every reachable world, when a fresh claim is decided, no refund of the return exists and no
-- request is under way.
pub claim_means_none :
    {w : World}
    → ReturnReach initial w
    → decide_return_claim w.now w.row ≡ claimed
    → (w.refunds ≡ []) × (requests w.jobs ≡ 0)
claim_means_none {w} r d =
    let safe = ReturnReach-IsSafe r in
    let none_yet = safe.unsent (claimed-unsettled w.now w.row d) in
    (length-zero w.refunds (omega (arith, none_yet)), omega (arith, none_yet))

-- In every reachable world, a row with a refund id names the only refund of the return.
pub linked_refund_is_the_refund :
    {w : World} (id : ℕ) → ReturnReach initial w → refund_id w.row ≡ some id → w.refunds ≡ id ∷ []
linked_refund_is_the_refund {w} id r e =
    let safe = ReturnReach-IsSafe r in sole id w.refunds (safe.link id e) (omega (arith, safe.one))
