-- ===== src/OverrideRules.antt =====
-- lib/sync/invoice-override-rules.ts: which reasons against an invoice an administrator may approve.
pub mod Codes
mod Tests
use store_kiotviet.Base.{Bool, List, [], ◌∷◌, if◌then◌else◌, ◌==◌, ℕ}
use store_kiotviet.Text.{Text, codes, has_text, trim}

-- The keys of OVERRIDABLE_INVOICE_WARNINGS.
abbrev pub overridable_invoice_warnings : List Text
overridable_invoice_warnings =
    codes "unsupported_shipping"
    ∷ codes "shipping_not_on_kiotviet_order"
    ∷ codes "shipping_mismatch"
    ∷ codes "total_mismatch"
    ∷ codes "amount_mismatch"
    ∷ codes "kiotviet_currency_not_configured"
    ∷ codes "overpaid"
    ∷ codes "unsupported_discount"
    ∷ codes "unsupported_tax"
    ∷ codes "prepayment_inheritance_unverified"
    ∷ codes "prepayment_exceeds_invoice"
    ∷ codes "prepayment_below_invoice"
    ∷ codes "kiotviet_payment_missing"
    ∷ []

-- ":"
abbrev pub colon : ℕ
colon = 58

-- `reason.split(":")[0]`
abbrev pub before_colon : Text → Text
before_colon [] = []
before_colon (c ∷ s) = if c == colon then [] else c ∷ before_colon s

unfoldable pub invoice_reason_code : Text → Text
invoice_reason_code reason = trim (before_colon reason)

pub record ClassifiedReason : Type 0 where
  pub code : Text
  pub message : Text

pub record ClassifiedReasons : Type 0 where
  pub warnings : List ClassifiedReason
  pub blockers : List ClassifiedReason

abbrev pub is_overridable : Text → Bool
is_overridable code = has_text code overridable_invoice_warnings

abbrev pub classified : Text → ClassifiedReason
classified reason = record { code = invoice_reason_code reason; message = reason }

unfoldable pub classify_invoice_reasons : List Text → ClassifiedReasons
classify_invoice_reasons [] = record { warnings = []; blockers = [] }
classify_invoice_reasons (reason ∷ rest) =
    let later = classify_invoice_reasons rest in
    let r = classified reason in
    if is_overridable r.code
    then record later { warnings = r ∷ later.warnings }
    else record later { blockers = r ∷ later.blockers }
