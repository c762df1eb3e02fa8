-- ===== src/Returns/Payments.antt =====
-- getShopifyRefundTransactions of lib/shopify/orders.ts: which payments of the order pay a refund.
use store_kiotviet.Base.{
  ℕ, inl, inr, Bool-cases, ◌+◌, ◌-◌, ◌<◌, ◌≤◌, ◌≡◌, refl, sym, map, min, arith, Bool, true, false,
  ◌&&◌, Option, none, some, List, [], ◌∷◌, if◌then◌else◌, ltb, ◌==◌, keep_if, sum_by,
}
use store_kiotviet.Base.Int.{ℤ, pos, ◌-ℤ◌, ◌+ℤ◌, pos_part, round_div, sum_ℤ}

pub data Kind : Type 0 where
  sale capture refund other_kind : Kind

-- The amount is in hundredths of a cent.
pub record Transaction : Type 0 where
  pub id : ℕ
  pub kind : Kind
  pub is_success : Bool
  pub parent : Option ℕ
  pub amount : ℤ

pub record Part : Type 0 where
  pub parent_id : ℕ
  pub cents : ℕ

abbrev is_source : Transaction → Bool
is_source t = t.is_success && is_payment t.kind
  where
    is_payment : Kind → Bool
    is_payment sale = true
    is_payment capture = true
    is_payment _ = false

abbrev is_refund_of : ℕ → Transaction → Bool
is_refund_of id t = t.is_success && is_refund t.kind && is_parent t.parent
  where
    is_refund : Kind → Bool
    is_refund refund = true
    is_refund _ = false

    is_parent : Option ℕ → Bool
    is_parent none = false
    is_parent (some p) = p == id

-- What was refunded of a payment before.
unfoldable pub refunded_of : ℕ → List Transaction → ℤ
refunded_of id [] = pos 0
refunded_of id (t ∷ ts) =
    if is_refund_of id t then t.amount +ℤ refunded_of id ts else refunded_of id ts

unfoldable pub available : List Transaction → Transaction → ℕ
unfolding refunded_of
available all t = pos_part (round_div t.amount 100 -ℤ round_div (refunded_of t.id all) 100)

-- The loop over the payments: the parts, and what is left at its end.
unfoldable pub pay_from : List Transaction → List Transaction → ℕ → List Part × ℕ
unfolding available
pay_from all [] left = ([], left)
pay_from all (t ∷ ts) left =
    let n = min (available all t) left in
    let (parts, rest) = pay_from all ts (left - n) in
    let after = if left - n == 0 then [] else parts in
    (
      if ltb 0 n then record { parent_id = t.id; cents = n } ∷ after else after,
      if left - n == 0 then 0 else rest,
    )

abbrev all_or_none : List Part × ℕ → Option (List Part)
all_or_none (parts, left) = if ltb 0 left then none else some parts

-- None where the order has less to refund than the amount.
unfoldable pub refund_transactions : List Transaction → ℕ → Option (List Part)
unfolding pay_from
refund_transactions all amount = all_or_none (pay_from all (keep_if is_source all) amount)

-- What is left is what the payments do not have, and the parts make up the rest.
pay_from-left :
    (all ts : List Transaction) (left : ℕ)
    → (pay_from all ts left).1 ≡ left - sum_by (available all) ts
unfolding pay_from
pay_from-left all [] left = omega arith
pay_from-left all (t ∷ ts) left =
    let ih = pay_from-left all ts (left - min (available all t) left) in ground arith

pay_from-sum :
    (all ts : List Transaction) (left : ℕ)
    → sum_by (λ p. p.cents) (pay_from all ts left).0 + (pay_from all ts left).1 ≡ left
unfolding pay_from
pay_from-sum all [] left = omega arith
pay_from-sum all (t ∷ ts) left =
    let ih = pay_from-sum all ts (left - min (available all t) left) in ground arith

-- What a payment has left: its amount less the successful refunds of it, both in whole cents.
abbrev pub left_on : List Transaction → Transaction → ℕ
left_on all t = pos_part (
    round_div t.amount 100
    -ℤ round_div (sum_ℤ (map (λ r. r.amount) (keep_if (is_refund_of t.id) all))) 100)

refunded_of-sum :
    (id : ℕ) (ts : List Transaction)
    → refunded_of id ts ≡ sum_ℤ (map (λ r. r.amount) (keep_if (is_refund_of id) ts))
unfolding refunded_of
refunded_of-sum id [] = refl
refunded_of-sum id (t ∷ ts) = elim (Bool-cases (is_refund_of id t)) [
  | inl h ↦ rw h (rw (refunded_of-sum id ts) refl)
  | inr h ↦ rw h (refunded_of-sum id ts)
]

available-left : (all : List Transaction) (t : Transaction) → available all t ≡ left_on all t
unfolding available
available-left all t = rw (refunded_of-sum t.id all) refl

sum_by-left : (all ts : List Transaction) → sum_by (available all) ts ≡ sum_by (left_on all) ts
sum_by-left all [] = refl
sum_by-left all (t ∷ ts) = rw (available-left all t) (rw (sum_by-left all ts) refl)

-- What the parts give back on a payment, and what the payments with an id have left.
abbrev pub given_back : ℕ → List Part → ℕ
given_back id parts = sum_by (λ p. if p.parent_id == id then p.cents else 0) parts

abbrev pub left_of : List Transaction → ℕ → List Transaction → ℕ
left_of all id ts = sum_by (λ t. if t.id == id then left_on all t else 0) ts

given_back-left :
    (all ts : List Transaction) (left id : ℕ)
    → given_back id (pay_from all ts left).0 ≤ left_of all id ts
unfolding pay_from
given_back-left all [] left id = omega arith
given_back-left all (t ∷ ts) left id =
    let ih = given_back-left all ts (left - min (available all t) left) id in
    let same = available-left all t in ground arith

-- The parts make up the amount and no payment gives back more than it has left, or the payments do
-- not have the amount.
abbrev pub IsPaidBy : List Transaction → ℕ → Option (List Part) → Type 0
IsPaidBy all amount (some parts) =
    (sum_by (λ p. p.cents) parts ≡ amount)
    × ((id : ℕ) → given_back id parts ≤ left_of all id (keep_if is_source all))
IsPaidBy all amount none = sum_by (left_on all) (keep_if is_source all) < amount

all_or_none-IsPaidBy :
    (all : List Transaction) (amount left : ℕ) (parts : List Part)
    → sum_by (λ p. p.cents) parts + left ≡ amount
    → left ≡ amount - sum_by (left_on all) (keep_if is_source all)
    → ((id : ℕ) → given_back id parts ≤ left_of all id (keep_if is_source all))
    → IsPaidBy all amount (all_or_none (parts, left))
all_or_none-IsPaidBy all amount left parts sum e within = elim (Bool-cases (ltb 0 left)) [
  | inl h ↦ rw h (ground arith)
  | inr h ↦ rw h (ground arith, within)
]

-- Either the parts that are given back on the payments of an order add up to exactly the amount and
-- on no payment more is given back than its amount less the successful refunds of it, or nothing is
-- given back and all payments together have less than the amount left.
pub refund_transactions-IsPaidBy :
    (all : List Transaction) (amount : ℕ) → IsPaidBy all amount (refund_transactions all amount)
unfolding refund_transactions
refund_transactions-IsPaidBy all amount =
    let sources = keep_if is_source all in
    let loop = pay_from all sources amount in
    all_or_none-IsPaidBy all amount loop.1 loop.0 (pay_from-sum all sources amount)
      (rw (sym (sum_by-left all sources)) (pay_from-left all sources amount))
      (given_back-left all sources amount)
