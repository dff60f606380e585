-- ===== src/Cache/Examples.antt =====
-- The cache round a detector that finds nothing.
use llm_proxy_pii_rust.Prelude.{ℕ, zero, suc, ◌≡◌, refl, [], ◌∷◌, Bytes}
use llm_proxy_pii_rust.Prelude.Maps.{lookup}
use llm_proxy_pii_rust.Entity.{ok}
use llm_proxy_pii_rust.Budget.{Budget}
use llm_proxy_pii_rust.Detector.{Detection}
use llm_proxy_pii_rust.Cache.{new, try_detect}
use llm_proxy_pii_rust.Cache.Laws.{IsFaithful, IsSound, new-IsBounded, try_detect-IsSound}

abbrev nothing : Detection
nothing input b = (ok [], b)

abbrev allowance : Budget
allowance = llm_proxy_pii_rust.Budget.new 5

abbrev letters : ℕ → Bytes
letters zero = []
letters (suc n) = b'a' ∷ letters n

-- Long enough to be cached.
abbrev input : Bytes
input = letters 300

read :
    try_detect nothing input allowance (new 2)
    ≡ (ok [], allowance, record { cap = 2; current = (input, []) ∷ []; previous = [] })
unfolding try_detect new
read = refl

new-IsFaithful : IsFaithful nothing (new 2)
unfolding new lookup
new-IsFaithful = record { hot = λ key es e. absurd (cc); cold = λ key es e. absurd (cc) }

try_detect-IsSound_example :
    IsSound nothing input allowance (try_detect nothing input allowance (new 2))
try_detect-IsSound_example =
    try_detect-IsSound nothing input allowance (new 2) new-IsFaithful (new-IsBounded 2)
