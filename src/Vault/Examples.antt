-- ===== src/Vault/Examples.antt =====
-- The store on concrete texts.
use llm_proxy_pii_rust.Prelude.{
  ◌≡◌, refl, [], ◌∷◌, Bytes, codes, any, Pairs, arith, ◌⊎◌, bytes_beq, if◌then◌else◌,
}
use llm_proxy_pii_rust.Prelude.Sort.{insert_by}
use llm_proxy_pii_rust.Kind.{label, email, location}
use llm_proxy_pii_rust.Text.{is_char_boundary, slice}
use llm_proxy_pii_rust.Entity.{PiiEntity, IsEntityOf, ok, verified, structural}
use llm_proxy_pii_rust.Budget.{new}
use llm_proxy_pii_rust.Detector.{Detector, Detection, rescanning}
use llm_proxy_pii_rust.Overlap.{overlaps, resolve_overlaps}
use llm_proxy_pii_rust.Overlap.Layout.{Apart}
use llm_proxy_pii_rust.Placeholder.{decimal}
use llm_proxy_pii_rust.Vault.{Vault, empty, placeholder_for, mask, demask}
use llm_proxy_pii_rust.Vault.Invariant.{
  IsVault, Extends, empty-IsVault, Given, placeholder_for-Given,
}
use llm_proxy_pii_rust.Vault.Replace.{Tokenless, no_bracket-Tokenless}
use llm_proxy_pii_rust.Vault.RoundTrip.{demask-mask, demask-mask-resolve_overlaps}
use llm_proxy_pii_rust.Vault.Fixpoint.{mask_all}
use llm_proxy_pii_rust.Vault.Settled.{Clean, mask_all-Clean, mask_all-Grows}

abbrev text : Bytes
text = codes "to b@x.it, Rome"

abbrev mail : PiiEntity
mail = record {
  kind = email;
  span = record { start = 3; end = 9 };
  text = codes "b@x.it";
  confidence = verified;
}

abbrev town : PiiEntity
town = record {
  kind = location;
  span = record { start = 11; end = 15 };
  text = codes "Rome";
  confidence = structural;
}

mail-IsEntityOf : IsEntityOf text mail
unfolding is_char_boundary slice
mail-IsEntityOf = record {
  spans = record {
    not_empty = omega arith;
    inside = omega arith;
    start_cut = refl;
    end_cut = refl;
  };
  carries = refl;
}

town-IsEntityOf : IsEntityOf text town
unfolding is_char_boundary slice
town-IsEntityOf = record {
  spans = record {
    not_empty = omega arith;
    inside = omega arith;
    start_cut = refl;
    end_cut = refl;
  };
  carries = refl;
}

clear : Tokenless text
clear = no_bracket-Tokenless text (unfold any in refl)

apart : Pairs Apart (town ∷ mail ∷ [])
apart = unfold overlaps in ((refl, tt), (tt, tt))

masked_text : (mask empty text (town ∷ mail ∷ [])).1 ≡ codes "to [EMAIL_1], [LOCATION_1]"
unfolding mask insert_by label decimal
masked_text = refl

demask-mask_example :
    IsVault (mask empty text (town ∷ mail ∷ [])).0
    × Extends empty (mask empty text (town ∷ mail ∷ [])).0
    × ((u : Vault)
        → Extends (mask empty text (town ∷ mail ∷ [])).0 u
        → demask u (mask empty text (town ∷ mail ∷ [])).1 ≡ text)
demask-mask_example =
    demask-mask text empty (town ∷ mail ∷ []) clear empty-IsVault
      (town-IsEntityOf, (mail-IsEntityOf, tt)) apart

demask-mask-resolve_overlaps_example :
    let masked = mask empty text (resolve_overlaps text (town ∷ mail ∷ mail ∷ [])) in
    demask masked.0 masked.1 ≡ text
demask-mask-resolve_overlaps_example =
    demask-mask-resolve_overlaps text empty (town ∷ mail ∷ mail ∷ []) clear empty-IsVault
      (town-IsEntityOf, (mail-IsEntityOf, (mail-IsEntityOf, tt)))

placeholder_for-Given_example :
    Given empty mail (placeholder_for empty mail).0 (placeholder_for empty mail).1
placeholder_for-Given_example = placeholder_for-Given empty mail empty-IsVault

-- A detector that finds the address, and nothing in any other text.
abbrev finder : Detection
finder input b = (if bytes_beq input text then ok (mail ∷ []) else ok [], b)

abbrev finders : Detector
finders = rescanning finder

settled : (mask_all finders empty text (new 100)).0 ≡ ok (codes "to [EMAIL_1], Rome")
unfolding mask_all rescanning label decimal bytes_beq insert_by
settled = refl

mask_all-Clean_example :
    Clean finders.redetect (codes "to [EMAIL_1], Rome")
    ⊎ ((codes "to [EMAIL_1], Rome" ≡ text) × Clean finders.try_detect text)
mask_all-Clean_example =
    mask_all-Clean finders empty text (new 100) (codes "to [EMAIL_1], Rome") settled

mask_all-Grows_example :
    IsVault (mask_all finders empty text (new 100)).1
    × Extends empty (mask_all finders empty text (new 100)).1
mask_all-Grows_example = mask_all-Grows finders empty text (new 100) empty-IsVault
