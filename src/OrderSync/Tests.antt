-- ===== src/OrderSync/Tests.antt =====
-- Trying the claim, the ways a create job ends, and a run in which the reply is lost.
use store_kiotviet.Base.Int.{◌*ℤ◌, ◌-ℤ◌, round_div, ◌+ℤ◌}
use store_kiotviet.ProductOnly.{product_only_policy}
use store_kiotviet.Money.{to_cents, sum_cents}
use store_kiotviet.Text.{normalize_sku}
use store_kiotviet.Lines.{
  partition_order_lines, processing_fee_reason, line_charged_cents, line_discount_cents,
  compute_order_amounts,
}
use store_kiotviet.Prepare.{is_paid, prepare_order_for_kiot_viet, validate_line}
use store_kiotviet.Base.{arith, ◌+◌, ◌≤◌, ◌≡◌, refl, none, some, [], ◌∷◌, length}
use store_kiotviet.Samples.{plain_order, strict_settings, plain_prepared}
use store_kiotviet.OrderSync.Decision.{
  Mapping, pending_create, pending, created, synced, decide_claim, create,
}
use store_kiotviet.OrderSync.Outcomes.{claim_row, mark_creating, record_created}
use store_kiotviet.OrderSync.Race.{
  World, Reach, initial, preparing, claim, send, accept, record_id, crash_preparing, tick, here,
  next,
}
use store_kiotviet.OrderSync.Race.AtMostOne.{orders-le-one, create_means_none, link_is_the_order}
use store_kiotviet.OrderSync.Race.Jobs.{requests}

abbrev claimed : Mapping
claimed = record {
  kiot_viet_order_id = none;
  status = some pending_create;
  sync_status = pending;
  claim_token = some 0;
  created_at = 0;
  claimed_at = some 0;
  failure_stage = none;
}

-- A job claims the order and dies; after the lease the next job claims it again.
first_claim : decide_claim 0 plain_order strict_settings none ≡ create plain_prepared
unfolding decide_claim is_paid prepare_order_for_kiot_viet partition_order_lines
    processing_fee_reason normalize_sku line_charged_cents to_cents line_discount_cents sum_cents
    product_only_policy validate_line ◌*ℤ◌ compute_order_amounts ◌-ℤ◌ round_div ◌+ℤ◌
first_claim = refl

second_claim :
    decide_claim 900000 plain_order strict_settings (some claimed) ≡ create plain_prepared
unfolding decide_claim is_paid prepare_order_for_kiot_viet partition_order_lines
    processing_fee_reason normalize_sku line_charged_cents to_cents line_discount_cents sum_cents
    product_only_policy validate_line ◌*ℤ◌ compute_order_amounts ◌-ℤ◌ round_div ◌+ℤ◌
second_claim = refl

abbrev abandoned : World
abandoned = record { row = some claimed; now = 900000; next_token = 1; jobs = []; orders = [] }

abbrev at_work : World
at_work = record {
  row = some claimed;
  now = 0;
  next_token = 1;
  jobs = preparing 0 ∷ [];
  orders = [];
}

start : Reach initial at_work
unfolding claim_row
start = next here (claim plain_order strict_settings plain_prepared first_claim)

left_behind : Reach initial abandoned
left_behind = next (next start (crash_preparing 0 [] [] refl)) (tick 900000 (omega arith))

create_means_none_example : (abandoned.orders ≡ []) × (requests abandoned.jobs ≡ 0)
create_means_none_example =
    create_means_none plain_order strict_settings plain_prepared left_behind second_claim

-- The job goes on instead, and KiotViet creates the order 42.
abbrev finished : World
finished = record {
  row = some (record claimed {
    kiot_viet_order_id = some 42;
    status = some created;
    sync_status = synced;
    claim_token = none;
  });
  now = 0;
  next_token = 1;
  jobs = [];
  orders = 42 ∷ [];
}

run : Reach initial finished
unfolding mark_creating record_created
run =
    next (next (next start (send 0 [] [] refl refl)) (accept 0 42 [] [] refl))
      (record_id 0 42 [] [] refl)

orders-le-one_example : length finished.orders + requests finished.jobs ≤ 1
orders-le-one_example = orders-le-one run

link_is_the_order_example : finished.orders ≡ 42 ∷ []
link_is_the_order_example = link_is_the_order 42 run refl
