-- ===== src/Vault/Settled.antt =====
-- What `mask_all` answers: a text that a detection just found clean, or an error; and the vault that it
-- leaves is sound and restores all that it restored before.
use llm_proxy_pii_rust.Prelude.{
  ℕ, zero, suc, ◌≡◌, refl, sym, subst, ◌⊎◌, inl, inr, true, false, List, [], ◌∷◌, arith, Bytes, max,
  Bool-cases,
}
use llm_proxy_pii_rust.Prelude.Sort.{sort_by}
use llm_proxy_pii_rust.Entity.{PiiEntity, DetectError, Outcome, ok, err}
use llm_proxy_pii_rust.Budget.{Budget}
use llm_proxy_pii_rust.Detector.{Detection, Detector}
use llm_proxy_pii_rust.Overlap.{start_order}
use llm_proxy_pii_rust.Vault.{
  Vault, placeholder_for, well_formed, char_boundary_at_or_after, mask_from, mask,
}
use llm_proxy_pii_rust.Vault.Invariant.{
  IsVault, Extends, Extends-refl, Extends-trans, placeholder_for-Given,
}
use llm_proxy_pii_rust.Vault.Fixpoint.{
  keep_maskable, not_settled, Masked, on_found, mask_passes, mask_all,
}

-- The detection ran on this text, with some allowance, and left nothing to mask.
abbrev pub Clean : Detection → Bytes → Type 0
Clean detect t =
    (b : Budget) × (raw : List PiiEntity) × ((detect t b).0 ≡ ok raw) × (keep_maskable raw ≡ [])

List-cases :
    (l : List PiiEntity) → (l ≡ []) ⊎ ((e : PiiEntity) × (es : List PiiEntity) × (l ≡ e ∷ es))
List-cases [] = inl refl
List-cases (e ∷ es) = inr (e, es, refl)

on_found-ok :
    (v : Vault) (current : Bytes) (residue : List PiiEntity → Budget → Masked)
    → (found : Outcome DetectError (List PiiEntity) × Budget) (t : Bytes)
    → (on_found v current residue found).0 ≡ ok t
    → ((t ≡ current) × (raw : List PiiEntity) × (found.0 ≡ ok raw) × (keep_maskable raw ≡ []))
      ⊎ ((es : List PiiEntity) × (b : Budget) × ((residue es b).0 ≡ ok t))
unfolding on_found
on_found-ok v current residue (err e, b) t h = cc
on_found-ok v current residue (ok raw, b) t h = elim (List-cases (keep_maskable raw)) [
  | inl none_left ↦ inl (
    (let h' : (on_found v current residue (ok raw, b)).0 ≡ ok t = h in
        let same : ok current ≡ ok t = rw (none_left, on_found) at h' in ground arith),
    raw,
    refl,
    none_left,
  )
  | inr (e, es, some_left) ↦ inr (e ∷ es, b, rw (some_left, on_found) at h)
]

mask_passes-Clean :
    (detector : Detector) (passes : ℕ) (detect : Detection) (v : Vault) (current : Bytes)
    (b : Budget)
    → (t : Bytes) → (mask_passes detector passes detect v current b).0 ≡ ok t
    → Clean detector.redetect t ⊎ ((t ≡ current) × Clean detect current)
unfolding mask_passes
mask_passes-Clean detector zero detect v current b t h =
    elim (on_found-ok v current (λ es b'. (err not_settled, v, b')) (detector.redetect current b) t
      h) [
        | inl (same, raw, found, clean) ↦
            inl (subst (Clean detector.redetect) (sym same) (b, raw, found, clean))
        | inr (es, b', failed) ↦ cc
      ]
mask_passes-Clean detector (suc passes) detect v current b t h =
    elim (on_found-ok v current
      (λ es b'.
        mask_passes detector passes detector.redetect (mask v current es).0 (mask v current es).1
          b')
      (detect current b) t h) [
        | inl (same, raw, found, clean) ↦ inr (same, (b, raw, found, clean))
        | inr (es, b', later) ↦
            elim (mask_passes-Clean detector passes detector.redetect (mask v current es).0
              (mask v current es).1 b' t later) [
                | inl clean ↦ inl clean
                | inr (same, clean) ↦ inl (subst (Clean detector.redetect) (sym same) clean)
              ]
      ]

-- A text that `mask_all` lets through was found clean by the last detection that ran: by the pass for
-- masked texts on exactly that text, or, if nothing had to be masked, by the first pass on the input.
pub mask_all-Clean :
    (detector : Detector) (v : Vault) (text : Bytes) (b : Budget) (t : Bytes)
    → (mask_all detector v text b).0 ≡ ok t
    → Clean detector.redetect t ⊎ ((t ≡ text) × Clean detector.try_detect text)
unfolding mask_all
mask_all-Clean detector v text b t h = mask_passes-Clean detector 4 detector.try_detect v text b t h

mask_from-skip :
    (text : Bytes) (v : Vault) (cursor : ℕ) (e : PiiEntity) (es : List PiiEntity)
    → well_formed text cursor e.span ≡ false
    → mask_from text v cursor (e ∷ es)
      ≡ mask_from text v (max cursor (char_boundary_at_or_after text e.end)) es
unfolding mask_from
mask_from-skip text v cursor e es h = rw (h, mask_from)

mask_from-taken :
    (text : Bytes) (v : Vault) (cursor : ℕ) (e : PiiEntity) (es : List PiiEntity)
    → well_formed text cursor e.span ≡ true
    → (mask_from text v cursor (e ∷ es)).0 ≡ (mask_from text (placeholder_for v e).0 e.end es).0
unfolding mask_from
mask_from-taken text v cursor e es h = rw (h, mask_from)

mask_from-Grows :
    (text : Bytes) (es : List PiiEntity) (v : Vault) (cursor : ℕ)
    → IsVault v
    → IsVault (mask_from text v cursor es).0 × Extends v (mask_from text v cursor es).0
mask_from-Grows text [] v cursor i = unfold mask_from in (i, Extends-refl v)
mask_from-Grows text (e ∷ es) v cursor i = elim (Bool-cases (well_formed text cursor e.span)) [
  | inl t ↦
      let given = placeholder_for-Given v e i in
      let (sound, later) = mask_from-Grows text es (placeholder_for v e).0 e.end given.sound in
      subst (λ w. IsVault w × Extends v w) (sym (mask_from-taken text v cursor e es t))
        (sound, Extends-trans given.extends later)
  | inr f ↦
      subst (λ r. IsVault r.0 × Extends v r.0)
        {x = mask_from text v (max cursor (char_boundary_at_or_after text e.end)) es}
        (sym (mask_from-skip text v cursor e es f))
        (mask_from-Grows text es v (max cursor (char_boundary_at_or_after text e.end)) i)
]

mask-Grows :
    (v : Vault) (text : Bytes) (es : List PiiEntity)
    → IsVault v
    → IsVault (mask v text es).0 × Extends v (mask v text es).0
unfolding mask
mask-Grows v text [] i = (i, Extends-refl v)
mask-Grows v text (e ∷ es) i = mask_from-Grows text (sort_by start_order (e ∷ es)) v 0 i

on_found-keeps :
    (P : Vault → Type 0) (v : Vault) (current : Bytes) (residue : List PiiEntity → Budget → Masked)
    → P v
    → ((es : List PiiEntity) (b : Budget) → P (residue es b).1)
    → (found : Outcome DetectError (List PiiEntity) × Budget)
    → P (on_found v current residue found).1
unfolding on_found
on_found-keeps P v current residue p r (err e, b) = p
on_found-keeps P v current residue p r (ok raw, b) = elim (List-cases (keep_maskable raw)) [
  | inl none_left ↦ rw (none_left, on_found) p
  | inr (e, es, some_left) ↦ rw (some_left, on_found) (r (e ∷ es) b)
]

mask_passes-Grows :
    (detector : Detector) (passes : ℕ) (detect : Detection) (v : Vault) (current : Bytes)
    (b : Budget)
    → IsVault v
    → IsVault (mask_passes detector passes detect v current b).1
      × Extends v (mask_passes detector passes detect v current b).1
unfolding mask_passes
mask_passes-Grows detector zero detect v current b i =
    on_found-keeps (λ w. IsVault w × Extends v w) v current (λ es b'. (err not_settled, v, b'))
      (i, Extends-refl v) (λ es b'. (i, Extends-refl v)) (detector.redetect current b)
mask_passes-Grows detector (suc passes) detect v current b i =
    on_found-keeps (λ w. IsVault w × Extends v w) v current
      (λ es b'.
        mask_passes detector passes detector.redetect (mask v current es).0 (mask v current es).1
          b')
      (i, Extends-refl v)
      (λ es b'.
        let (sound, grown) = mask-Grows v current es i in
        let (sound', later) =
          mask_passes-Grows detector passes detector.redetect (mask v current es).0
            (mask v current es).1 b' sound in
        (sound', Extends-trans grown later))
      (detect current b)

-- Whatever the detector answers, malformed spans and errors included, `mask_all` leaves a sound vault
-- that restores every placeholder of the vault it was given to the same value.
pub mask_all-Grows :
    (detector : Detector) (v : Vault) (text : Bytes) (b : Budget)
    → IsVault v
    → IsVault (mask_all detector v text b).1 × Extends v (mask_all detector v text b).1
unfolding mask_all
mask_all-Grows detector v text b i = mask_passes-Grows detector 4 detector.try_detect v text b i
