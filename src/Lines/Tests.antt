-- ===== src/Lines/Tests.antt =====
-- Trying the partition of an order with a fee line.
use store_kiotviet.Base.Int.{◌+ℤ◌, ◌-ℤ◌, ◌*ℤ◌, round_div}
use store_kiotviet.Money.{to_cents, sum_cents}
use store_kiotviet.Text.{normalize_sku}
use store_kiotviet.Base.{◌≡◌, refl, ok, [], ◌∷◌}
use store_kiotviet.Samples.{plain_order, strict_settings, shirt, fee, amounts}
use store_kiotviet.Lines.{
  Partition, partition_order_lines, compute_order_amounts, processing_fee_reason,
  line_charged_cents, line_discount_cents,
}
use store_kiotviet.Lines.Amounts.{IsBalanced, compute_order_amounts-IsBalanced}

abbrev parts : Partition
parts = record { purchased = shirt ∷ []; fees = fee ∷ [] }

partition_plain_order : partition_order_lines plain_order strict_settings ≡ ok parts
unfolding partition_order_lines processing_fee_reason normalize_sku line_charged_cents to_cents
    line_discount_cents sum_cents ◌+ℤ◌ ◌-ℤ◌ ◌*ℤ◌ round_div
partition_plain_order = refl

amounts_of_plain_order : compute_order_amounts plain_order parts.purchased parts.fees ≡ ok amounts
unfolding compute_order_amounts to_cents ◌-ℤ◌ round_div ◌+ℤ◌ ◌*ℤ◌ line_charged_cents
    line_discount_cents sum_cents
amounts_of_plain_order = refl

compute_order_amounts-IsBalanced_example : IsBalanced plain_order amounts
compute_order_amounts-IsBalanced_example =
    compute_order_amounts-IsBalanced plain_order strict_settings parts amounts partition_plain_order
      amounts_of_plain_order
