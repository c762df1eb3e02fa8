-- ===== src/Returns/Refunds.antt =====
-- classifyExistingRefunds and expectedAmount of lib/sync/return-sync.ts: what Shopify's refunds say
-- about a return, and the money that KiotViet paid back.
use store_kiotviet.Base.{
  ℕ, ◌+◌, ◌/◌, Bool, true, ◌&&◌, ◌||◌, not, Option, none, some, List, [], map, if◌then◌else◌, leb,
  ◌==◌, or_else, any_of, keep_if, is_empty, has_id,
}
use store_kiotviet.Base.Int.{ℤ, pos, pos_part, neg_part, round_div, ltb_ℤ}
use store_kiotviet.Text.{Text, text_eq, has_text, trim, normalize_sku}
use store_kiotviet.Returns.{Returned, ExistingRefund}

-- `cents(value)`
abbrev pub cents : Option ℤ → ℤ
cents amount = round_div (or_else amount (pos 0)) 100

-- `note` is kiotVietReturnRefundNote of the code.
abbrev pub has_note : Text → ExistingRefund → Bool
has_note note r = text_eq (trim (or_else r.note [])) note

abbrev pub returned_skus : Returned → List Text
returned_skus r = map (λ line. normalize_sku (some line.product_code)) r.return_details

abbrev pub touches : List Text → ExistingRefund → Bool
touches skus r = any_of (λ sku. has_text (normalize_sku sku) skus) r.skus

-- One day of tolerance.
abbrev pub day_ms : ℕ
day_ms = 86400000

abbrev may_be_later : Option ℕ → Option ℕ → Bool
may_be_later none created = true
may_be_later (some t) none = true
may_be_later (some t) (some c) = leb t (c + day_ms)

abbrev pub is_money_only : ExistingRefund → Bool
is_money_only r = is_empty r.skus && ltb_ℤ (pos 0) (cents r.total_refunded)

-- A refund that another return is linked to, or that has the note, is not suspicious.
unfoldable pub is_suspicious : Text → Returned → List ℕ → ExistingRefund → Bool
is_suspicious note returned linked r =
    not (has_note note r || has_id r.id linked)
    && (touches (returned_skus returned) r
        || is_money_only r && may_be_later returned.return_date r.created_at)

pub record Classified : Type 0 where
  pub ours : List ExistingRefund
  pub suspicious : List ExistingRefund

unfoldable pub classify_existing_refunds :
    Text → Returned → List ExistingRefund → (linked_elsewhere : List ℕ) → Classified
unfolding is_suspicious
classify_existing_refunds note returned refunds linked = record {
  ours = keep_if (has_note note) refunds;
  suspicious = keep_if (is_suspicious note returned linked) refunds;
}

abbrev magnitude : ℤ → ℕ
magnitude n = pos_part n + neg_part n

-- Rounded to cents, or none for nothing.
abbrev pub positive_cents : ℤ → Option ℕ
positive_cents n = if magnitude n == 0 then none else some ((magnitude n + 50) / 100)

-- The money that was paid back, in cents; the total only where the payload has no payment.
unfoldable pub expected_amount : Returned → Option ℕ
expected_amount r = elim r.total_payment [
  | some paid ↦ positive_cents paid
  | none ↦ elim r.return_total [ none ↦ none | some total ↦ positive_cents total ]
]
