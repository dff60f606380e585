-- ===== src/Prelude/Maps.antt =====
-- `HashMap` as an association list: a key stands in it at most once. Nothing here goes by the order of
-- entries; where the source sorts the keys, so does the model.
use llm_proxy_pii_rust.Prelude.Tests.{if◌then◌else◌}
use llm_proxy_pii_rust.Prelude.Lists.{length}
use llm_proxy_pii_rust.Prelude.Equality.{PartialEq, ◌==◌}
use Prim.Native.Nat.{◌+◌, ◌≤◌}
use mathlib.Core.Path.{◌≡◌, refl}
use mathlib.Core.List.{List, [], ◌∷◌}
use mathlib.Core.Option.{Option, none, some}
use native.Mathlib.Omega.{arith}

abbrev pub Dict {ℓ} : Type ℓ → Type ℓ → Type ℓ
Dict K V = List (K × V)

module _ {ℓ} {K V : Type ℓ} ⦃compares : PartialEq K⦄ where
  unfoldable pub lookup : K → Dict K V → Option V
  lookup key [] = none
  lookup key ((at, found) ∷ rest) = if at == key then some found else lookup key rest

  unfoldable pub insert : K → V → Dict K V → Dict K V
  insert key new [] = (key, new) ∷ []
  insert key new ((at, old) ∷ rest) =
      if at == key then (key, new) ∷ rest else (at, old) ∷ insert key new rest

  unfoldable pub remove : K → Dict K V → Dict K V
  remove key [] = []
  remove key ((at, old) ∷ entries) =
      let rest = remove key entries in if at == key then rest else (at, old) ∷ rest

  pub lookup-insert :
      (key asked : K) (new : V) (dict : Dict K V)
      → lookup asked (insert key new dict) ≡ (if key == asked then some new else lookup asked dict)
  unfolding lookup insert
  lookup-insert key asked new [] = refl
  lookup-insert key asked new ((at, old) ∷ rest) = ground (
    arith,
    lookup-insert key asked new rest,
    compares.same_iff key asked,
    compares.same_iff at key,
    compares.same_iff at asked,
  )

  pub lookup-remove :
      (key asked : K) (dict : Dict K V)
      → lookup asked (remove key dict) ≡ (if key == asked then none else lookup asked dict)
  unfolding lookup remove
  lookup-remove key asked [] = ground arith
  lookup-remove key asked ((at, old) ∷ rest) = ground (
    arith,
    lookup-remove key asked rest,
    compares.same_iff key asked,
    compares.same_iff at key,
    compares.same_iff at asked,
  )

  pub length-insert :
      (key : K) (new : V) (dict : Dict K V) → length (insert key new dict) ≤ length dict + 1
  unfolding insert
  length-insert key new [] = omega arith
  length-insert key new ((at, old) ∷ rest) = ground (arith, length-insert key new rest)

  pub length-remove : (key : K) (dict : Dict K V) → length (remove key dict) ≤ length dict
  unfolding remove
  length-remove key [] = omega arith
  length-remove key ((at, old) ∷ rest) = ground (arith, length-remove key rest)
