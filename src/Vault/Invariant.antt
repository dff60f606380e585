-- ===== src/Vault/Invariant.antt =====
-- What holds of every vault that starts empty: the two maps are inverse to one another, and every
-- placeholder in use is one of the numbers counted for its kind. So a new placeholder is new.
use llm_proxy_pii_rust.Prelude.{
  ℕ, ◌+◌, ◌≤◌, ◌≡◌, sym, ap, ◌∙◌, inl, inr, none, some, arith, Bytes, bytes_eq, bytes_beq,
  bytes_beq_iff, Option-cases, Bool-cases,
}
use llm_proxy_pii_rust.Prelude.Maps.{lookup, lookup-insert}
use llm_proxy_pii_rust.Kind.{PiiKind, kind_eq, kind_beq_iff}
use llm_proxy_pii_rust.Entity.{PiiEntity}
use llm_proxy_pii_rust.Placeholder.{placeholder}
use llm_proxy_pii_rust.Placeholder.Canonical.{placeholder-injective}
use llm_proxy_pii_rust.Vault.{Vault, empty, count, mint, placeholder_for}

-- A placeholder of a kind, with a number that has been given out.
pub record IsIssued (v : Vault) (p : Bytes) : Type 0 where
  pub kind : PiiKind
  pub number : ℕ
  pub spelled : p ≡ placeholder kind number
  pub counted : number ≤ count v kind

pub record IsVault (v : Vault) : Type 0 where
  pub forth : (t p : Bytes) → lookup t v.to_placeholder ≡ some p → lookup p v.to_original ≡ some t
  pub back : (t p : Bytes) → lookup p v.to_original ≡ some t → lookup t v.to_placeholder ≡ some p
  pub issued : (t p : Bytes) → lookup p v.to_original ≡ some t → IsIssued v p

-- What `v` can restore, `w` restores to the same.
pub record Extends (v w : Vault) : Type 0 where
  pub keeps : (t p : Bytes) → lookup p v.to_original ≡ some t → lookup p w.to_original ≡ some t

pub Extends-refl : (v : Vault) → Extends v v
Extends-refl v = record { keeps = λ t p h. h }

pub Extends-trans : {u v w : Vault} → Extends u v → Extends v w → Extends u w
Extends-trans h k = record { keeps = λ t p e. k.keeps t p (h.keeps t p e) }

pub empty-IsVault : IsVault empty
unfolding lookup
empty-IsVault = record { forth = λ t p h. cc; back = λ t p h. cc; issued = λ t p h. absurd (cc) }

-- The number after the last one of a kind is in no placeholder that is in use.
fresh :
    (v : Vault) (k : PiiKind)
    → IsVault v
    → lookup (placeholder k (count v k + 1)) v.to_original ≡ none
fresh v k i = elim (Option-cases (lookup (placeholder k (count v k + 1)) v.to_original)) [
  | inl e ↦ e
  | inr (t, e) ↦
      let q = i.issued t _ e in
      let (same, number) = placeholder-injective k q.kind (count v k + 1) q.number q.spelled in
      absurd (omega (arith, q.counted, number, ap (count v) same))
]

module _ (v : Vault) (e : PiiEntity) (i : IsVault v)
    (new : lookup e.text v.to_placeholder ≡ none) where
  abbrev minted : Bytes
  minted = placeholder e.kind (count v e.kind + 1)

  mint-Extends : Extends v (mint v e).0
  unfolding mint
  mint-Extends = record {
    keeps = λ t p h.
        lookup-insert minted p e.text v.to_original
        ∙ ground (arith, h, fresh v e.kind i, bytes_beq_iff minted p);
  }

  count-mint : (k : PiiKind) → count v k ≤ count (mint v e).0 k
  unfolding mint count
  count-mint k =
      ground (arith, lookup-insert e.kind k (count v e.kind + 1) v.counters, kind_beq_iff e.kind k)

  count-mint_self : count (mint v e).0 e.kind ≡ count v e.kind + 1
  unfolding mint count
  count-mint_self = ground (
    arith,
    lookup-insert e.kind e.kind (count v e.kind + 1) v.counters,
    kind_beq_iff e.kind e.kind,
  )

  mint-forth :
      (t p : Bytes)
      → lookup t (mint v e).0.to_placeholder ≡ some p
      → lookup p (mint v e).0.to_original ≡ some t
  unfolding mint
  mint-forth t p h = ground (
    arith,
    lookup-insert e.text t minted v.to_placeholder,
    lookup-insert minted p e.text v.to_original,
    bytes_beq_iff e.text t,
    bytes_beq_iff minted p,
    fresh v e.kind i,
    i.forth t p,
  )

  mint-back :
      (t p : Bytes)
      → lookup p (mint v e).0.to_original ≡ some t
      → lookup t (mint v e).0.to_placeholder ≡ some p
  unfolding mint
  mint-back t p h = ground (
    arith,
    lookup-insert e.text t minted v.to_placeholder,
    lookup-insert minted p e.text v.to_original,
    bytes_beq_iff e.text t,
    bytes_beq_iff minted p,
    new,
    i.back t p,
  )

  mint-IsIssued :
      (t p : Bytes) → lookup p (mint v e).0.to_original ≡ some t → IsIssued (mint v e).0 p
  mint-IsIssued t p h = elim (Bool-cases (bytes_beq minted p)) [
    | inl same ↦ record {
      kind = e.kind;
      number = count v e.kind + 1;
      spelled = sym ((bytes_beq_iff minted p).0 same);
      counted = omega (arith, count-mint_self);
    }
    | inr other ↦
        let old : lookup p v.to_original ≡ some t =
          unfold mint in ground (arith, lookup-insert minted p e.text v.to_original, h, other) in
        let q = i.issued t p old in
        record {
          kind = q.kind;
          number = q.number;
          spelled = q.spelled;
          counted = omega (arith, q.counted, count-mint q.kind);
        }
  ]

  mint-IsVault : IsVault (mint v e).0
  mint-IsVault = record { forth = mint-forth; back = mint-back; issued = mint-IsIssued }

-- What asking for a placeholder does: the vault stays sound, restores all that it restored, and
-- restores the placeholder that it gives to the value.
pub record Given (v : Vault) (e : PiiEntity) (w : Vault) (p : Bytes) : Type 0 where
  pub sound : IsVault w
  pub extends : Extends v w
  pub restores : lookup p w.to_original ≡ some e.text

-- A sound vault that is asked for the placeholder of an entity stays sound, restores all that it restored
-- to the same, and restores the placeholder that it answers to the text of the entity.
pub placeholder_for-Given :
    (v : Vault) (e : PiiEntity)
    → IsVault v
    → Given v e (placeholder_for v e).0 (placeholder_for v e).1
unfolding placeholder_for
placeholder_for-Given v e i = elim (Option-cases (lookup e.text v.to_placeholder)) [
  | inl new ↦
      rw (new, placeholder_for)
        (record {
          sound = mint-IsVault v e i new;
          extends = mint-Extends v e i new;
          restores =
              unfold mint in
              ground (
                arith,
                lookup-insert (minted v e i new) (minted v e i new) e.text v.to_original,
                bytes_beq_iff (minted v e i new) (minted v e i new),
              );
        })
  | inr (p, old) ↦
      rw (old, placeholder_for)
        (record { sound = i; extends = Extends-refl v; restores = i.forth e.text p old })
]
