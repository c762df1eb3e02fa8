-- ===== src/Prepare/Tests.antt =====
-- Trying the laws of a prepared order.
use store_kiotviet.Base.Int.{pos, ◌*ℤ◌, ◌-ℤ◌, round_div, ◌+ℤ◌}
use store_kiotviet.ProductOnly.{product_only_policy}
use store_kiotviet.Money.{to_cents, sum_cents}
use store_kiotviet.Text.{Text, normalize_sku}
use store_kiotviet.Lines.{
  partition_order_lines, processing_fee_reason, line_charged_cents, line_discount_cents,
  compute_order_amounts,
}
use store_kiotviet.Prepare.Details.{OrderDetail, build_order_details}
use store_kiotviet.Prepare.Details.Faithful.{AreDetails, build_order_details-AreDetails}
use store_kiotviet.Base.{ℕ, Result, Option, some, [], ◌∷◌, ◌≡◌, refl, ok, All}
use store_kiotviet.Samples.{shirt, plain_order, strict_settings, plain_prepared}
use store_kiotviet.Prepare.{prepare_order_for_kiot_viet, validate_line}
use store_kiotviet.Prepare.Laws.{IsSendable, prepare_order_for_kiot_viet-IsSendable}

prepare_plain_order : prepare_order_for_kiot_viet plain_order strict_settings ≡ ok plain_prepared
unfolding prepare_order_for_kiot_viet partition_order_lines processing_fee_reason normalize_sku
    line_charged_cents to_cents line_discount_cents sum_cents product_only_policy validate_line ◌*ℤ◌
    compute_order_amounts ◌-ℤ◌ round_div ◌+ℤ◌
prepare_plain_order = refl

prepare_order_for_kiot_viet-IsSendable_example : All IsSendable plain_prepared.lines
prepare_order_for_kiot_viet-IsSendable_example =
    prepare_order_for_kiot_viet-IsSendable plain_order strict_settings plain_prepared
      prepare_plain_order

abbrev product_ids : Text → Result (Option ℕ)
product_ids sku = ok (some 77)

abbrev detail : OrderDetail
detail = record {
  product_id = 77;
  product_code = shirt.sku;
  quantity = 3;
  price = pos 100000;
  discount = pos 0;
}

build_plain_details : build_order_details product_ids plain_prepared.lines ≡ ok (detail ∷ [])
unfolding build_order_details
build_plain_details = refl

build_order_details-AreDetails_example : AreDetails product_ids plain_prepared.lines (detail ∷ [])
build_order_details-AreDetails_example =
    build_order_details-AreDetails product_ids plain_prepared.lines (detail ∷ [])
      build_plain_details
