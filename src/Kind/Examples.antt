-- ===== src/Kind/Examples.antt =====
-- Labels in several spellings.
use llm_proxy_pii_rust.Prelude.{◌≡◌, ◌↔◌, codes, some}
use llm_proxy_pii_rust.Text.{to_ascii_uppercase}
use llm_proxy_pii_rust.Kind.{email, label, from_label, from_label-label}

from_label-label_example :
    (from_label (codes "eMail") ≡ some email) ↔ (to_ascii_uppercase (codes "eMail") ≡ label email)
from_label-label_example = from_label-label (codes "eMail") email
