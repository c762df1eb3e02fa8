-- ===== src/OrderSync/Run/Tests.antt =====
-- Trying a first job for the plain order, and a job for a linked one.
use store_kiotviet.Base.Int.{◌*ℤ◌, ◌-ℤ◌, round_div, ◌+ℤ◌}
use store_kiotviet.ProductOnly.{product_only_policy}
use store_kiotviet.Money.{to_cents, sum_cents}
use store_kiotviet.Text.{normalize_sku}
use store_kiotviet.Lines.{
  partition_order_lines, processing_fee_reason, line_charged_cents, line_discount_cents,
  compute_order_amounts,
}
use store_kiotviet.Prepare.{is_paid, prepare_order_for_kiot_viet, validate_line}
use store_kiotviet.Base.{◌≡◌, refl, true, false, none, some, ok, err, AppError, List, [], ◌∷◌, All}
use store_kiotviet.Samples.{plain_order, strict_settings}
use store_kiotviet.OrderSync.Decision.{
  Mapping, created, synced, pending_create, creating, pending, uncertain, update,
}
use store_kiotviet.OrderSync.Outcomes.{
  create_mapped_order, verify_uncertain_order, is_definite_rejection,
}
use store_kiotviet.OrderSync.Run.Uncertain.{
  Job, decisions, is_search_or_update, create_mapped_order_uncertain,
  verify_uncertain_order_settles,
}
use store_kiotviet.OrderSync.Run.{Replies, run_shopify_order_sync}
use store_kiotviet.OrderSync.Run.Links.{order_id, returned_id, run_links}

abbrev replies : Replies
replies = record { customer = err AppError.api; input = ok tt; sent = ok 42; found = none }

abbrev linked : Mapping
linked = record {
  kiot_viet_order_id = some 42;
  status = some created;
  sync_status = synced;
  claim_token = none;
  created_at = 0;
  claimed_at = some 0;
  failure_stage = none;
}

first_job :
    returned_id (run_shopify_order_sync 0 1 plain_order strict_settings replies none).0 ≡ some 42
unfolding run_shopify_order_sync is_paid prepare_order_for_kiot_viet partition_order_lines
    processing_fee_reason normalize_sku line_charged_cents to_cents line_discount_cents sum_cents
    product_only_policy validate_line ◌*ℤ◌ compute_order_amounts ◌-ℤ◌ round_div ◌+ℤ◌
first_job = refl

run_links_example :
    order_id (run_shopify_order_sync 0 1 plain_order strict_settings replies none).1 ≡ some 42
run_links_example = run_links 0 1 42 plain_order strict_settings replies none first_job

abbrev claimed : Mapping
claimed = record {
  kiot_viet_order_id = none;
  status = some pending_create;
  sync_status = pending;
  claim_token = some 0;
  created_at = 0;
  claimed_at = some 0;
  failure_stage = none;
}

abbrev lost : Mapping
lost = record claimed { status = some creating; sync_status = uncertain }

abbrev finding : Replies
finding = record { customer = ok tt; input = ok tt; sent = ok 43; found = some 42 }

-- A search that finds nothing, one that finds the order, and an update.
abbrev later_jobs : List Job
later_jobs =
    record {
      now = 9;
      token = 2;
      order = plain_order;
      settings = strict_settings;
      replies = replies;
    }
    ∷ record {
      now = 900009;
      token = 3;
      order = plain_order;
      settings = strict_settings;
      replies = finding;
    }
    ∷ record {
      now = 900019;
      token = 4;
      order = plain_order;
      settings = strict_settings;
      replies = finding;
    }
    ∷ []

timeout_is_uncertain : is_definite_rejection AppError.uncertain ≡ false
unfolding is_definite_rejection
timeout_is_uncertain = refl

create_mapped_order_uncertain_example :
    let (r, row) = create_mapped_order 1 0 (ok tt) (err AppError.uncertain) (some claimed) in
    (r ≡ err AppError.uncertain)
    × All (λ d. is_search_or_update d ≡ true) (decisions later_jobs row)
create_mapped_order_uncertain_example =
    create_mapped_order_uncertain 1 0 AppError.uncertain claimed later_jobs refl refl
      timeout_is_uncertain

verify_uncertain_order_settles_example :
    All (λ d. d ≡ update 42) (decisions later_jobs (verify_uncertain_order 5 (some 42) lost).1)
    × All
        (λ d. is_search_or_update d ≡ true)
        (decisions later_jobs (verify_uncertain_order 5 none lost).1)
verify_uncertain_order_settles_example = verify_uncertain_order_settles 5 42 lost later_jobs refl
