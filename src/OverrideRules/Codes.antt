-- ===== src/OverrideRules/Codes.antt =====
-- How reasons are read by their codes.
use store_kiotviet.Base.{◌≡◌, refl, ap, false, [], ◌∷◌, ◌++◌, ◌==◌, arith, any_of}
use store_kiotviet.Text.{Text, trim}
use store_kiotviet.OverrideRules.{colon, before_colon, invoice_reason_code}

before_colon-append :
    (code rest : Text)
    → any_of (λ c. c == colon) code ≡ false
    → before_colon (code ++ colon ∷ rest) ≡ code
before_colon-append [] rest h = refl
before_colon-append (c ∷ code) rest h = ground (arith, before_colon-append code rest)

-- The code of a text without a colon, a colon and anything after it is that text, trimmed.
pub invoice_reason_code-append :
    (code rest : Text)
    → any_of (λ c. c == colon) code ≡ false
    → invoice_reason_code (code ++ colon ∷ rest) ≡ trim code
unfolding invoice_reason_code
invoice_reason_code-append code rest h = ap trim (before_colon-append code rest h)
