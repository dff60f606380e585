-- ===== src/Budget/Examples.antt =====
-- The allowance in numbers.
use llm_proxy_pii_rust.Prelude.{◌+◌, ◌-◌, ◌/◌, ◌%◌, ◌≡◌, refl, nat_beq, if◌then◌else◌, arith, some}
use llm_proxy_pii_rust.Kind.{index, iban, phone}
use llm_proxy_pii_rust.Budget.{new, attribute, spent_on, top_spender}
use llm_proxy_pii_rust.Budget.Laws.{spend_calls, spend_calls-charge, spent_on-attribute}

spend_calls-charge_example :
    ((spend_calls 4 10 (new 2)).left ≡ (new 2).left - 10 / 4)
    × ((spend_calls 4 10 (new 2)).part ≡ 10 % 4)
unfolding new
spend_calls-charge_example = spend_calls-charge 4 10 (new 2) (omega arith) refl

spent_on-attribute_example :
    spent_on (attribute iban 7 (new 9)) iban
    ≡ spent_on (new 9) iban + (if nat_beq (index iban) (index iban) then 7 else 0)
unfolding new
spent_on-attribute_example = spent_on-attribute (new 9) iban iban 7 refl

-- The kind with the most units is the one that is named.
loudest : top_spender (attribute phone 3 (attribute iban 7 (new 9))) ≡ some (iban, 7)
unfolding top_spender attribute new
loudest = refl
