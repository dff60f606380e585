-- ===== src/Placeholder/Examples.antt =====
-- Tokens as they are written and found.
use llm_proxy_pii_rust.Prelude.{ℕ, ◌≡◌, refl, ◌++◌, codes, some}
use llm_proxy_pii_rust.Kind.{email, credit_card, label}
use llm_proxy_pii_rust.Text.{is_ascii_alphabetic, is_ascii_digit}
use llm_proxy_pii_rust.Placeholder.{step, match_token, decimal, placeholder}
use llm_proxy_pii_rust.Placeholder.Canonical.{
  token_of, match_token-placeholder, placeholder-injective,
}

match_token-placeholder_example :
    match_token (placeholder credit_card 12 ++ codes "3]") ≡ some (token_of credit_card 12)
match_token-placeholder_example = match_token-placeholder credit_card 12 (codes "3]")

placeholder-injective_example : (email ≡ email) × (◌≡◌ {A = ℕ} 3 3)
placeholder-injective_example = placeholder-injective email email 3 3 refl

-- A model may write a token with blanks and in lower case.
loose :
    match_token (codes "[ email - 7 ]!")
    ≡ some (record { label = codes "email"; digits = codes "7"; size = 13 })
unfolding match_token step is_ascii_alphabetic is_ascii_digit
loose = refl

written : placeholder credit_card 120 ≡ codes "[CARD_120]"
unfolding placeholder label decimal
written = refl
