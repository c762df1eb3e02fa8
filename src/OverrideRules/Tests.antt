-- ===== src/OverrideRules/Tests.antt =====
-- Trying two reasons.
use store_kiotviet.Base.{◌≡◌, refl, [], ◌∷◌}
use store_kiotviet.Text.{codes, trim}
use store_kiotviet.OverrideRules.{classified, classify_invoice_reasons, invoice_reason_code}

two_reasons :
    classify_invoice_reasons (codes "overpaid: 12.00" ∷ codes "not_paid: pending" ∷ []) ≡ record {
      warnings = classified (codes "overpaid: 12.00") ∷ [];
      blockers = classified (codes "not_paid: pending") ∷ [];
    }
unfolding classify_invoice_reasons invoice_reason_code trim
two_reasons = refl
