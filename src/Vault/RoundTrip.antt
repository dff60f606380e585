-- ===== src/Vault/RoundTrip.antt =====
-- One pass of masking, then restoring, gives the text back.
use llm_proxy_pii_rust.Prelude.{
  ℕ, zero, suc, ◌+◌, ◌-◌, ◌≤◌, ◌≡◌, refl, sym, ap, ◌∙◌, subst, true, inl, inr, List, [], ◌∷◌, ◌++◌,
  some, arith, take, drop, take-append-drop, Bytes, bytes_eq, All, Pairs, Bool-cases,
}
use llm_proxy_pii_rust.Prelude.Quantifiers.{All-intro}
use llm_proxy_pii_rust.Prelude.Maps.{lookup}
use llm_proxy_pii_rust.Prelude.Sort.{sort_by, All-sort_by, Pairs-sort_by, sort_by-SortedBy}
use llm_proxy_pii_rust.Kind.{PiiKind, label}
use llm_proxy_pii_rust.Text.{slice}
use llm_proxy_pii_rust.Entity.{PiiEntity, IsEntityOf}
use llm_proxy_pii_rust.Overlap.{start_order, resolve_overlaps}
use llm_proxy_pii_rust.Overlap.Layout.{Ordered, Apart, Apart-symm, Apart-Ordered, Ordered-Apart}
use llm_proxy_pii_rust.Overlap.Resolve.{
  resolve_overlaps-Ordered, start_order-total, start_order_trans,
}
use llm_proxy_pii_rust.Placeholder.{Token, bracketed, decimal, placeholder, canonical}
use llm_proxy_pii_rust.Placeholder.Canonical.{
  token_of, match_token-placeholder, canonical-placeholder,
}
use llm_proxy_pii_rust.Vault.{
  Vault, is_empty, placeholder_for, well_formed, mask_from, mask, replace_all, substitute,
  demask_inner, demask,
}
use llm_proxy_pii_rust.Vault.Invariant.{
  IsIssued, IsVault, Extends, Extends-refl, Extends-trans, placeholder_for-Given,
}
use llm_proxy_pii_rust.Vault.Replace.{
  Unbroken-open, Tokenless, Tokenless-drop, Tokenless-append_left, replace_all-append,
  replace_all-whole, replace_all-Tokenless, replace_all-same,
}

drop-nil : (n : ℕ) → drop {A = ℕ} n [] ≡ []
drop-nil zero = refl
drop-nil (suc n) = refl

drop-drop : (a d : ℕ) (xs : Bytes) → drop d (drop a xs) ≡ drop (a + d) xs
drop-drop zero d xs = let same : 0 + d ≡ d = omega arith in rw same
drop-drop (suc a) d [] = drop-nil d ∙ sym (drop-nil (suc a + d))
drop-drop (suc a) d (x ∷ xs) =
    drop-drop a d xs
    ∙ ap (λ (n : ℕ). drop n (x ∷ xs)) {x = suc (a + d)} {y = suc a + d} (omega arith)

-- The bytes up to `b`, and those from `b` on.
slice-drop : (text : Bytes) (a b : ℕ) → a ≤ b → slice text a b ++ drop b text ≡ drop a text
unfolding slice
slice-drop text a b h =
    ap (λ (n : ℕ). take (b - a) (drop a text) ++ drop n text) {x = b} {y = a + (b - a)}
      (omega arith)
    ∙ ap (λ (l : Bytes). take (b - a) (drop a text) ++ l) (sym (drop-drop a (b - a) text))
    ∙ take-append-drop (b - a) (drop a text)

Tokenless-slice : (text : Bytes) (a b : ℕ) → Tokenless text → Tokenless (slice text a b)
unfolding slice
Tokenless-slice text a b h =
    Tokenless-append_left (take (b - a) (drop a text)) (drop (b - a) (drop a text))
      (subst Tokenless (sym (take-append-drop (b - a) (drop a text))) (Tokenless-drop a text h))

module _ (render : Bytes → Bytes) (u : Vault) where
  substitute-known :
      (t : Token) (m s : Bytes)
      → lookup (canonical t) u.to_original ≡ some s
      → substitute render u t m ≡ render s
  unfolding substitute
  substitute-known t m s e = rw (e, substitute)

  -- A placeholder that the vault knows is replaced by its value, whatever stands behind it.
  pub replace_all-placeholder :
      (k : PiiKind) (n : ℕ) (s x : Bytes)
      → lookup (placeholder k n) u.to_original ≡ some s
      → replace_all (substitute render u) 0 (placeholder k n ++ x)
        ≡ render s ++ replace_all (substitute render u) 0 x
  unfolding placeholder bracketed
  replace_all-placeholder k n s x e =
      replace_all-whole (substitute render u) b'[' (label k ++ (b'_' ∷ (decimal n ++ (b']' ∷ []))))
        x (token_of k n) (match_token-placeholder k n x) refl
      ∙ ap (λ (l : Bytes). l ++ replace_all (substitute render u) 0 x)
          (substitute-known (token_of k n) (placeholder k n) s
            (ap (λ (p : Bytes). lookup p u.to_original) (canonical-placeholder k n) ∙ e))

substitute-empty :
    (render : Bytes → Bytes) (u : Vault) (t : Token) (m : Bytes)
    → is_empty u ≡ true
    → substitute render u t m ≡ m
unfolding substitute is_empty lookup
substitute-empty render u t m e = ground arith

-- Restoring is the replacing of tokens, also where the vault is empty.
pub demask_inner-replace_all :
    (render : Bytes → Bytes) (u : Vault) (x : Bytes)
    → demask_inner render u x ≡ replace_all (substitute render u) 0 x
unfolding demask_inner
demask_inner-replace_all render u x = elim (Bool-cases (is_empty u)) [
  | inl e ↦
      rw (e)
        (sym (replace_all-same (substitute render u) (λ t m. substitute-empty render u t m e) x 0))
  | inr e ↦ rw (e)
]

demask-replace_all : (u : Vault) (x : Bytes) → demask u x ≡ replace_all (substitute (λ s. s) u) 0 x
unfolding demask
demask-replace_all u x = demask_inner-replace_all (λ s. s) u x

-- From the cursor on, the masked text restores to the text, in this vault and in any that extends it.
record Restores (text : Bytes) (v : Vault) (cursor : ℕ) (w : Vault) (out : Bytes) : Type 0 where
  sound : IsVault w
  extends : Extends v w
  restores :
      (u : Vault) → Extends w u → replace_all (substitute (λ s. s) u) 0 out ≡ drop cursor text

mask_from-step :
    (text : Bytes) (v : Vault) (cursor : ℕ) (e : PiiEntity) (es : List PiiEntity)
    → well_formed text cursor e.span ≡ true
    → let given = placeholder_for v e in
      let later = mask_from text given.0 e.end es in
      mask_from text v cursor (e ∷ es)
      ≡ (later.0, slice text cursor e.start ++ (given.1 ++ later.1))
unfolding mask_from
mask_from-step text v cursor e es h = rw (h, mask_from)

well_formed-entity :
    (text : Bytes) (cursor : ℕ) (e : PiiEntity)
    → IsEntityOf text e
    → cursor ≤ e.start
    → well_formed text cursor e.span ≡ true
unfolding well_formed
well_formed-entity text cursor e g h =
    let n = g.spans.not_empty in
    let i = g.spans.inside in let a = g.spans.start_cut in let b = g.spans.end_cut in ground arith

-- The placeholder that was given for a value restores to it, with the text in front as it stands.
restore_one :
    (w u : Vault) (p s gap x : Bytes)
    → IsVault w
    → lookup p w.to_original ≡ some s
    → Extends w u
    → Tokenless gap
    → replace_all (substitute (λ b. b) u) 0 (gap ++ (p ++ x))
      ≡ gap ++ (s ++ replace_all (substitute (λ b. b) u) 0 x)
restore_one w u p s gap x i e ext clear =
    ap (λ (q : Bytes). replace_all sub 0 (gap ++ (q ++ x))) q.spelled
    ∙ cut
    ∙ ap (λ (l : Bytes). l ++ replace_all sub 0 (placeholder q.kind q.number ++ x))
        (replace_all-Tokenless sub gap clear)
    ∙ ap (λ (l : Bytes). gap ++ l)
        (replace_all-placeholder (λ b. b) u q.kind q.number s x
          (ap (λ (r : Bytes). lookup r u.to_original) (sym q.spelled) ∙ ext.keeps s p e))
  where
    sub : Token → Bytes → Bytes
    sub = substitute (λ b. b) u

    q : IsIssued w p
    q = i.issued s p e

    cut :
        replace_all sub 0 (gap ++ (placeholder q.kind q.number ++ x))
        ≡ replace_all sub 0 gap ++ replace_all sub 0 (placeholder q.kind q.number ++ x)
    cut =
        unfold placeholder bracketed in
        replace_all-append sub gap (placeholder q.kind q.number ++ x) 0 (omega arith)
          (Unbroken-open gap _)

module _ (text : Bytes) (clear : Tokenless text) where
  mask_from-Restores :
      (es : List PiiEntity) (v : Vault) (cursor : ℕ)
      → IsVault v
      → All (IsEntityOf text) es
      → Ordered cursor es
      → Restores text v cursor (mask_from text v cursor es).0 (mask_from text v cursor es).1
  mask_from-Restores [] v cursor i g o =
      unfold mask_from in
      record {
        sound = i;
        extends = Extends-refl v;
        restores =
            λ u h. replace_all-Tokenless _ (drop cursor text) (Tokenless-drop cursor text clear);
      }
  mask_from-Restores (e ∷ es) v cursor i g o =
      let given = placeholder_for-Given v e i in
      let v' = (placeholder_for v e).0 in
      let p = (placeholder_for v e).1 in
      let later = mask_from-Restores es v' e.end given.sound g.1 o.2 in
      let out = mask_from text v' e.end es in
      subst (λ r. Restores text v cursor r.0 r.1)
        {x = (out.0, slice text cursor e.start ++ (p ++ out.1))}
        (sym (mask_from-step text v cursor e es (well_formed-entity text cursor e g.0 o.0)))
        (record {
          sound = later.sound;
          extends = Extends-trans given.extends later.extends;
          restores = λ u h.
              restore_one v' u p e.text (slice text cursor e.start) out.1 given.sound given.restores
                (Extends-trans later.extends h) (Tokenless-slice text cursor e.start clear)
              ∙ ap (λ (l : Bytes). slice text cursor e.start ++ (e.text ++ l)) (later.restores u h)
              ∙ ap (λ (l : Bytes). slice text cursor e.start ++ (l ++ drop e.end text)) g.0.carries
              ∙ ap (λ (l : Bytes). slice text cursor e.start ++ l)
                  (slice-drop text e.start e.end (let n = g.0.spans.not_empty in omega arith))
              ∙ slice-drop text cursor e.start o.0;
        })

mask-Restores :
    (text : Bytes) (clear : Tokenless text) (v : Vault) (es : List PiiEntity)
    → IsVault v
    → All (IsEntityOf text) es
    → Pairs Apart es
    → Restores text v 0 (mask v text es).0 (mask v text es).1
mask-Restores text clear v [] i g a =
    unfold mask in
    record {
      sound = i;
      extends = Extends-refl v;
      restores = λ u h. replace_all-Tokenless _ text clear;
    }
mask-Restores text clear v (e ∷ es) i g a =
    unfold mask in
    mask_from-Restores text clear (sort_by start_order (e ∷ es)) v 0 i sorted (
      Apart-Ordered text 0 _ (All-intro _ (λ k. omega arith) _) sorted
        (sort_by-SortedBy start_order start_order-total start_order_trans (e ∷ es))
        (Pairs-sort_by Apart start_order Apart-symm (e ∷ es) a))
  where
    sorted : All (IsEntityOf text) (sort_by start_order (e ∷ es))
    sorted = All-sort_by (IsEntityOf text) start_order (e ∷ es) g

-- One pass over a text in which no placeholder stands, with well formed entities that do not overlap,
-- in any order, leaves a sound vault; that vault, and any later vault of the request that extends
-- it, restores the masked text to exactly the text.
pub demask-mask :
    (text : Bytes) (v : Vault) (es : List PiiEntity)
    → Tokenless text
    → IsVault v
    → All (IsEntityOf text) es
    → Pairs Apart es
    → IsVault (mask v text es).0
      × Extends v (mask v text es).0
      × ((u : Vault) → Extends (mask v text es).0 u → demask u (mask v text es).1 ≡ text)
demask-mask text v es clear i g a =
    let r = mask-Restores text clear v es i g a in
    (r.sound, r.extends, λ u h. demask-replace_all u (mask v text es).1 ∙ r.restores u h)

-- A text in which no placeholder stands is masked by a sound vault, with what the overlap resolution makes
-- of any well formed candidates. The vault that results restores the masked text to exactly the text.
pub demask-mask-resolve_overlaps :
    (text : Bytes) (v : Vault) (candidates : List PiiEntity)
    → Tokenless text
    → IsVault v
    → All (IsEntityOf text) candidates
    → let masked = mask v text (resolve_overlaps text candidates) in demask masked.0 masked.1 ≡ text
demask-mask-resolve_overlaps text v candidates clear i g =
    let (valid, ordered) = resolve_overlaps-Ordered text candidates g in
    (demask-mask text v (resolve_overlaps text candidates) clear i valid
        (Ordered-Apart 0 _ ordered)).2
      (mask v text (resolve_overlaps text candidates)).0 (Extends-refl _)
