-- ===== src/OrderSync/Race/AtMostOne.antt =====
-- Whatever the interleaving, KiotViet is never asked for a second order.
use store_kiotviet.Base.{
  ℕ, ◌+◌, ◌≤◌, ◌≡◌, refl, sym, ◌∙◌, inl, inr, true, false, none, some, List, [], ◌∷◌, ◌++◌, arith,
  length, has_id,
}
use store_kiotviet.Shopify.{Order, OrderSettings}
use store_kiotviet.Prepare.{PreparedOrder}
use store_kiotviet.OrderSync.Decision.{Row, create, decide_claim}
use store_kiotviet.OrderSync.Race.{
  Phase, preparing, sending, orphaned, accepted, World, initial, linked_id, Step, Reach, here, next,
  tick, claim, fail, send, lose_claim, accept, accept_orphan, drop_orphan, reject, time_out,
  lose_reply, record_id, crash_preparing, crash_sending, crash_accepted, recover, give_up,
  note_failure, update, cancel, complete,
}
use store_kiotviet.OrderSync.Race.Rows.{
  Keeps, Links, claim_row-unlinked, claimed→held, claimed→idle, decide_claim-idle, idle→unlinked,
  is_held, is_idle, mark_creating-marks, record_cancelled-held, record_cancelled-link,
  record_completed-held, record_completed-link, record_created-Links, record_recovered-Links,
  record_rejected-link, record_uncertain-Keeps, record_unclaimed_failure-Keeps,
  record_unknown_outcome-Keeps, record_updated-held, record_updated-link, release_claim-Keeps,
}
use store_kiotviet.OrderSync.Race.Jobs.{
  Exists, Exists-append, Exists-more, Exists-at, fewer_at, has_id-more, length-zero, requests,
  requests-append, requests_at, sole,
}

pub record IsSafe (w : World) : Type 0 where
  -- at most one order exists or may still come to exist
  pub one : length w.orders + requests w.jobs ≤ 1
  -- while the row is idle there is none of either
  pub idle : is_idle w.row ≡ true → length w.orders + requests w.jobs ≡ 0
  -- the linked order exists, and so does the order in a job's hand
  pub link : (id : ℕ) → linked_id w.row ≡ some id → has_id id w.orders ≡ true
  pub in_hand : Exists w.orders w.jobs
  -- a claimed row is not linked
  pub held : is_held w.row ≡ true → linked_id w.row ≡ none

-- The three kinds of step that send nothing.
keep-IsSafe :
    {w : World} (row : Row) (jobs : List Phase)
    → IsSafe w
    → Keeps w.row row
    → requests jobs ≤ requests w.jobs
    → Exists w.orders jobs
    → IsSafe (record w { row = row; jobs = jobs })
keep-IsSafe row jobs safe k fewer hand = record {
  one = omega (arith, safe.one);
  idle = λ h. omega (arith, safe.idle (k.idle h), fewer);
  link = λ id e. safe.link id (sym k.link ∙ e);
  in_hand = hand;
  held = λ h. k.link ∙ safe.held (k.held h);
}

link-IsSafe :
    {w : World} (id : ℕ) (row : Row) (jobs : List Phase)
    → IsSafe w
    → has_id id w.orders ≡ true
    → Links id w.row row
    → requests jobs ≤ requests w.jobs
    → Exists w.orders jobs
    → IsSafe (record w { row = row; jobs = jobs })
link-IsSafe {w} id row jobs safe exists k fewer hand = record {
  one = omega (arith, safe.one);
  idle = λ h. omega (arith, safe.idle (k.idle h), fewer);
  link = λ j e. elim (k.link j e) [ inl same ↦ rw same exists | inr old ↦ safe.link j old ];
  in_hand = hand;
  held = λ h. let (before, same) = k.held h in same ∙ safe.held before;
}

relink-IsSafe :
    {w : World} (id : ℕ) (row : Row)
    → IsSafe w
    → linked_id w.row ≡ some id
    → linked_id row ≡ linked_id w.row
    → (is_held row ≡ true → is_held w.row ≡ true)
    → IsSafe (record w { row = row })
relink-IsSafe {w} id row safe e same held = record {
  one = safe.one;
  idle = λ h. let f : none ≡ some id = sym (idle→unlinked row h) ∙ same ∙ e in cc;
  link = λ j f. safe.link j (sym same ∙ f);
  in_hand = safe.in_hand;
  held = λ h. same ∙ safe.held (held h);
}

unchanged : (row : Row) → Keeps row row
unchanged row = record { idle = λ h. h; link = refl; held = λ h. h }

drop-IsSafe :
    {w : World} (row : Row) (xs ys : List Phase) (p : Phase)
    → IsSafe w
    → Keeps w.row row
    → w.jobs ≡ xs ++ (p ∷ ys)
    → (Exists w.orders (p ∷ ys) → Exists w.orders ys)
    → IsSafe (record w { row = row; jobs = xs ++ ys })
drop-IsSafe {w} row xs ys p safe k e tail =
    let (left, right) = Exists-at w.orders w.jobs xs ys p e safe.in_hand in
    keep-IsSafe row (xs ++ ys) safe k (fewer_at w.jobs xs ys p e)
      (Exists-append w.orders xs ys left (tail right))

Step-IsSafe : {w v : World} → Step w v → IsSafe w → IsSafe v
Step-IsSafe (tick now h) safe = record {
  one = safe.one;
  idle = safe.idle;
  link = safe.link;
  in_hand = safe.in_hand;
  held = safe.held;
}
Step-IsSafe {w} (claim order s p h) safe =
    let idle = decide_claim-idle w.now order s w.row p h in
    let unlinked = claim_row-unlinked w.now w.next_token w.row idle in
    record {
      one = omega (arith, safe.one);
      idle = λ _. omega (arith, safe.idle idle);
      link = λ id e. let f : none ≡ some id = sym unlinked ∙ e in cc;
      in_hand = safe.in_hand;
      held = λ _. unlinked;
    }
Step-IsSafe {w} (fail token e xs ys q) safe =
    drop-IsSafe _ xs ys (preparing token) safe (release_claim-Keeps token e w.row) q (λ h. h)
Step-IsSafe {w} (send token xs ys q held) safe =
    let (busy, same) = mark_creating-marks w.now token w.row held in
    let unlinked = safe.held (claimed→held token w.row held) in
    let none_yet = safe.idle (claimed→idle token w.row held unlinked) in
    let (left, right) = Exists-at w.orders w.jobs xs ys (preparing token) q safe.in_hand in
    record {
      one = omega (
        arith,
        none_yet,
        requests_at w.jobs xs ys (preparing token) q,
        requests-append xs (sending token ∷ ys),
      );
      idle = λ h. let f : true ≡ false = sym h ∙ busy in cc;
      link = λ id e. safe.link id (sym same ∙ e);
      in_hand = Exists-append w.orders xs (sending token ∷ ys) left right;
      held = λ _. same ∙ unlinked;
    }
Step-IsSafe {w} (lose_claim token xs ys q h) safe =
    drop-IsSafe _ xs ys (preparing token) safe (unchanged w.row) q (λ h. h)
Step-IsSafe {w} (accept token id xs ys q) safe =
    let (left, right) = Exists-at w.orders w.jobs xs ys (sending token) q safe.in_hand in
    record {
      one = omega (
        arith,
        safe.one,
        requests_at w.jobs xs ys (sending token) q,
        requests-append xs (accepted token id ∷ ys),
      );
      idle = λ h. absurd (omega (arith, safe.idle h, requests_at w.jobs xs ys (sending token) q));
      link = λ k e. has_id-more k id w.orders (safe.link k e);
      in_hand =
          Exists-append (id ∷ w.orders) xs (accepted token id ∷ ys)
            (Exists-more id w.orders xs left) (ground arith, Exists-more id w.orders ys right);
      held = safe.held;
    }
Step-IsSafe {w} (accept_orphan id xs ys q) safe =
    let (left, right) = Exists-at w.orders w.jobs xs ys orphaned q safe.in_hand in
    record {
      one = omega (arith, safe.one, requests_at w.jobs xs ys orphaned q, requests-append xs ys);
      idle = λ h. absurd (omega (arith, safe.idle h, requests_at w.jobs xs ys orphaned q));
      link = λ k e. has_id-more k id w.orders (safe.link k e);
      in_hand = Exists-more id w.orders (xs ++ ys) (Exists-append w.orders xs ys left right);
      held = safe.held;
    }
Step-IsSafe {w} (drop_orphan xs ys q) safe =
    drop-IsSafe _ xs ys orphaned safe (unchanged w.row) q (λ h. h)
Step-IsSafe {w} (reject token xs ys q) safe =
    let (left, right) = Exists-at w.orders w.jobs xs ys (sending token) q safe.in_hand in
    let (same, held) = record_rejected-link token w.row in
    record {
      one =
          omega
            (arith, safe.one, requests_at w.jobs xs ys (sending token) q, requests-append xs ys);
      idle = λ _.
          omega
            (arith, safe.one, requests_at w.jobs xs ys (sending token) q, requests-append xs ys);
      link = λ k e. safe.link k (sym same ∙ e);
      in_hand = Exists-append w.orders xs ys left right;
      held = λ h. same ∙ safe.held (held h);
    }
Step-IsSafe {w} (time_out token xs ys q) safe =
    let (left, right) = Exists-at w.orders w.jobs xs ys (sending token) q safe.in_hand in
    keep-IsSafe _ (xs ++ (orphaned ∷ ys)) safe (record_uncertain-Keeps token w.row)
      (omega
        (arith, requests_at w.jobs xs ys (sending token) q, requests-append xs (orphaned ∷ ys)))
      (Exists-append w.orders xs (orphaned ∷ ys) left right)
Step-IsSafe {w} (lose_reply token id xs ys q) safe =
    drop-IsSafe _ xs ys (accepted token id) safe (record_uncertain-Keeps token w.row) q (λ h. h.1)
Step-IsSafe {w} (record_id token id xs ys q) safe =
    let (left, right) = Exists-at w.orders w.jobs xs ys (accepted token id) q safe.in_hand in
    link-IsSafe id _ (xs ++ ys) safe right.0 (record_created-Links token id w.row)
      (fewer_at w.jobs xs ys (accepted token id) q) (Exists-append w.orders xs ys left right.1)
Step-IsSafe {w} (crash_preparing token xs ys q) safe =
    drop-IsSafe _ xs ys (preparing token) safe (unchanged w.row) q (λ h. h)
Step-IsSafe {w} (crash_sending token xs ys q) safe =
    let (left, right) = Exists-at w.orders w.jobs xs ys (sending token) q safe.in_hand in
    keep-IsSafe _ (xs ++ (orphaned ∷ ys)) safe (unchanged w.row)
      (omega
        (arith, requests_at w.jobs xs ys (sending token) q, requests-append xs (orphaned ∷ ys)))
      (Exists-append w.orders xs (orphaned ∷ ys) left right)
Step-IsSafe {w} (crash_accepted token id xs ys q) safe =
    drop-IsSafe _ xs ys (accepted token id) safe (unchanged w.row) q (λ h. h.1)
Step-IsSafe {w} (recover id exists) safe =
    link-IsSafe id _ w.jobs safe exists (record_recovered-Links id w.row) (omega arith) safe.in_hand
Step-IsSafe {w} give_up safe =
    keep-IsSafe _ w.jobs safe (record_unknown_outcome-Keeps w.row) (omega arith) safe.in_hand
Step-IsSafe {w} (note_failure stage e) safe =
    keep-IsSafe _ w.jobs safe (record_unclaimed_failure-Keeps w.now stage e w.row) (omega arith)
      safe.in_hand
Step-IsSafe {w} (update id e) safe =
    relink-IsSafe id _ safe e (record_updated-link w.row) (record_updated-held w.row)
Step-IsSafe {w} (cancel id e) safe =
    relink-IsSafe id _ safe e (record_cancelled-link w.row) (record_cancelled-held w.row)
Step-IsSafe {w} (complete id e) safe =
    relink-IsSafe id _ safe e (record_completed-link w.row) (record_completed-held w.row)

initial-IsSafe : IsSafe initial
initial-IsSafe = record {
  one = omega arith;
  idle = λ _. refl;
  link = λ id e. cc;
  in_hand = tt;
  held = λ _. refl;
}

pub Reach-IsSafe : {w : World} → Reach initial w → IsSafe w
Reach-IsSafe here = initial-IsSafe
Reach-IsSafe (next r st) = Step-IsSafe st (Reach-IsSafe r)

-- In every world that any interleaving of jobs for one Shopify order reaches, crashes, lost replies
-- and takeovers included, the KiotViet orders and the requests that can still create one are
-- together at most one.
pub orders-le-one : {w : World} → Reach initial w → length w.orders + requests w.jobs ≤ 1
orders-le-one r = (Reach-IsSafe r).one

-- In every reachable world, when the claim decides to create the order, no KiotViet order exists
-- for it and no request is under way.
pub create_means_none :
    {w : World} (order : Order) (s : OrderSettings) (p : PreparedOrder)
    → Reach initial w
    → decide_claim w.now order s w.row ≡ create p
    → (w.orders ≡ []) × (requests w.jobs ≡ 0)
create_means_none {w} order s p r h =
    let none_yet = (Reach-IsSafe r).idle (decide_claim-idle w.now order s w.row p h) in
    (length-zero w.orders (omega (arith, none_yet)), omega (arith, none_yet))

-- In every reachable world, a row with an order id names the one KiotViet order that exists.
pub link_is_the_order :
    {w : World} (id : ℕ) → Reach initial w → linked_id w.row ≡ some id → w.orders ≡ id ∷ []
link_is_the_order {w} id r e =
    let safe = Reach-IsSafe r in sole id w.orders (safe.link id e) (omega (arith, safe.one))
