-- ===== src/Returns/Tests.antt =====
-- A return of three units that two lines of the order cover, paid by two payments; a second job
-- after a lost reply; and a run in which the refund is found again.
use store_kiotviet.Returns.Refunds.{classify_existing_refunds, expected_amount}
use store_kiotviet.Base.{
  ℕ, ◌+◌, ◌≤◌, ◌≡◌, ◌≢◌, refl, ok, true, none, some, List, [], ◌∷◌, length, leb,
}
use store_kiotviet.Base.Int.{pos, negsuc, ◌-ℤ◌, round_div, ◌+ℤ◌, ◌*ℤ◌}
use store_kiotviet.Text.{codes, normalize_sku}
use store_kiotviet.OrderSync.Race.{preparing, sending, accepted}
use store_kiotviet.OrderSync.Race.Jobs.{requests}
use store_kiotviet.Returns.{ReturnLine, units, Returned, RefundableLine, RefundLine}
use store_kiotviet.Returns.Lines.{match_return_lines}
use store_kiotviet.Returns.Payments.{
  Transaction, sale, capture, refund, Part, refund_transactions, refund_transactions-IsPaidBy,
  IsPaidBy,
}
use store_kiotviet.Returns.Row.{
  Row, RefundRow, processing, financial_refunded, claimed, decide_return_claim, claim_return,
  mark_sending, set_state,
}
use store_kiotviet.Returns.Stuck.{ReturnRow}
use store_kiotviet.Returns.Process.{
  Evidence, Request, accepted, unknown, Source, sync_kiot_viet_return, plan_return,
}
use store_kiotviet.Returns.Process.Due.{IsDue, sync_kiot_viet_return_sent}
use store_kiotviet.Returns.Process.Settled.{is_settled, settled_stays, sent_once}
use store_kiotviet.Returns.Once.{
  ReturnReach, here, next, initial, claim, send, accept, record_refund,
}
use store_kiotviet.Returns.Once.AtMostOne.{refunds-le-one}

abbrev returned_lines : List ReturnLine
returned_lines =
    record { product_code = codes "mug-1"; quantity = units (pos 2) }
    ∷ record { product_code = codes "MUG-1 "; quantity = units (pos 1) }
    ∷ []

abbrev mug_return : Returned
mug_return = record {
  id = 7;
  code = codes "TH7";
  is_completed = true;
  invoice_id = some 3;
  return_date = some 1000;
  return_details = returned_lines;
  total_payment = some (negsuc 299999);
  return_total = none;
}

abbrev order_lines : List RefundableLine
order_lines =
    record { id = 12; sku = some (codes "MUG-1"); refundable_quantity = pos 5 }
    ∷ record { id = 11; sku = some (codes "mug-1"); refundable_quantity = pos 1 }
    ∷ record { id = 10; sku = none; refundable_quantity = pos 9 }
    ∷ []

abbrev taken_lines : List RefundLine
taken_lines =
    record { line_item_id = 11; quantity = 1 } ∷ record { line_item_id = 12; quantity = 2 } ∷ []

abbrev payments : List Transaction
payments =
    record { id = 1; kind = sale; is_success = true; parent = none; amount = pos 200000 }
    ∷ record { id = 2; kind = capture; is_success = true; parent = none; amount = pos 250000 }
    ∷ record { id = 3; kind = refund; is_success = true; parent = some 1; amount = pos 50000 }
    ∷ []

abbrev parts : List Part
parts = record { parent_id = 1; cents = 1500 } ∷ record { parent_id = 2; cents = 1500 } ∷ []

abbrev evidence : Evidence
evidence = record {
  note = codes "refund of TH7";
  refunds = [];
  lines = order_lines;
  linked_elsewhere = [];
  precedes = leb;
  transactions = ok payments;
}

abbrev source : Source
source = record { order_code = some (codes "DH1"); mapped = 900 ∷ [] }

abbrev the_request : Request
the_request = record { amount = 3000; lines = taken_lines; transactions = parts }

parts_pay : refund_transactions payments 3000 ≡ some parts
unfolding refund_transactions ◌-ℤ◌ round_div ◌+ℤ◌ ◌*ℤ◌
parts_pay = refl

refund_transactions-IsPaidBy_example : IsPaidBy payments 3000 (refund_transactions payments 3000)
refund_transactions-IsPaidBy_example = refund_transactions-IsPaidBy payments 3000

is_sent :
    (sync_kiot_viet_return 50 4 mug_return source (ok evidence) unknown none).sent
    ≡ some the_request
unfolding sync_kiot_viet_return decide_return_claim plan_return classify_existing_refunds
    expected_amount match_return_lines normalize_sku refund_transactions ◌-ℤ◌ round_div ◌+ℤ◌ ◌*ℤ◌
    claim_return
is_sent = refl

sync_kiot_viet_return_sent_example :
    (e : Evidence) × (ok evidence ≡ ok e)
    × IsDue mug_return e the_request
    × (decide_return_claim 50 none ≡ claimed)
sync_kiot_viet_return_sent_example =
    sync_kiot_viet_return_sent 50 4 mug_return source (ok evidence) unknown none the_request is_sent

abbrev after_timeout : Row
after_timeout = (sync_kiot_viet_return 50 4 mug_return source (ok evidence) unknown none).row

timed_out_settled : is_settled after_timeout ≡ true
timed_out_settled =
    sent_once 50 4 mug_return source (ok evidence) unknown none the_request is_sent refl

settled_stays_example :
    (is_settled
        (sync_kiot_viet_return 900 5 mug_return source (ok evidence) unknown after_timeout).row
      ≡ true)
    × ((q : Request)
        → (sync_kiot_viet_return 900 5 mug_return source (ok evidence) unknown after_timeout).sent
          ≢ some q)
settled_stays_example =
    settled_stays 900 5 mug_return source (ok evidence) unknown after_timeout timed_out_settled

-- The first job sends, its reply is lost with it.
abbrev sent_row : Row
sent_row = mark_sending 0 0 3000 (claim_return 0 0 none)

claimed_once :
    ReturnReach initial
      (record initial { row = claim_return 0 0 none; next_token = 1; jobs = preparing 0 ∷ [] })
unfolding decide_return_claim
claimed_once = next here (claim refl)

sent_one :
    ReturnReach initial (record initial { row = sent_row; next_token = 1; jobs = sending 0 ∷ [] })
unfolding claim_return
sent_one = next claimed_once (send 0 3000 [] [] refl refl)

refunded_one : ReturnReach initial (record initial {
  row = sent_row;
  next_token = 1;
  jobs = accepted 0 77 ∷ [];
  refunds = 77 ∷ [];
})
refunded_one = next sent_one (accept 0 77 [] [] refl)

recorded_one : ReturnReach initial (record initial {
  row = set_state 0 financial_refunded (some 77) sent_row;
  next_token = 1;
  refunds = 77 ∷ [];
})
recorded_one = next refunded_one (record_refund 0 77 [] [] refl)

abbrev one_refund : List ℕ
one_refund = 77 ∷ []

abbrev no_refunds : List ℕ
no_refunds = []

refunds-le-one_example : length one_refund + requests (accepted 0 77 ∷ []) ≤ 1
refunds-le-one_example = refunds-le-one refunded_one

abbrev dead_row : RefundRow
dead_row = record {
  status = some processing;
  claim_token = some 0;
  claimed_at = some 100;
  sent_at = none;
  financial_refund_id = none;
  amount = none;
  attempt_count = 1;
}

abbrev dead_return : ReturnRow
dead_return = record { return_id = 5; updated_at = 100; row = dead_row }

abbrev other_return : ReturnRow
other_return = record {
  return_id = 6;
  updated_at = 50;
  row = record dead_row { status = some financial_refunded; financial_refund_id = some 77 };
}
