-- ===== src/Prelude/Equality.antt =====
-- `PartialEq`: the equality test of a type, with its law, and its instances for numbers and texts.
use llm_proxy_pii_rust.Prelude.Tests.{nat_beq, nat_beq_iff}
use Prim.Native.Nat.{ℕ}
use Prim.Native.Char.{code}
use Prim.Native.String.{String}
use mathlib.Core.Path.{◌≡◌}
use mathlib.Core.Bool.{Bool, true, false, ◌&&◌}
use mathlib.Core.Logic.{◌↔◌}
use mathlib.Core.List.{List, [], ◌∷◌}
use native.Mathlib.Omega.{arith}

pub record PartialEq {ℓ} (Self : Type ℓ) : Type ℓ where
  pub same : Self → Self → Bool
  pub same_iff : (x y : Self) → (same x y ≡ true) ↔ (x ≡ y)

infix 50 ◌==◌
abbrev pub ◌==◌ {ℓ} : {Self : Type ℓ} ⦃compares : PartialEq Self⦄ → Self → Self → Bool
◌==◌ ⦃compares⦄ x y = compares.same x y

-- A text is the list of its UTF-8 bytes.
abbrev pub Bytes : Type 0
Bytes = List ℕ

-- The bytes of an ASCII literal.
abbrev pub codes : String → Bytes
codes String.[] = []
codes (String.◌∷◌ c s) = code c ∷ codes s

unfoldable pub bytes_beq : Bytes → Bytes → Bool
bytes_beq [] [] = true
bytes_beq (x ∷ xs) (y ∷ ys) = nat_beq x y && bytes_beq xs ys
bytes_beq _ _ = false

pub bytes_beq_iff : (a b : Bytes) → (bytes_beq a b ≡ true) ↔ (a ≡ b)
unfolding bytes_beq
bytes_beq_iff (x ∷ a) (y ∷ b) = ground (arith, bytes_beq_iff a b)
bytes_beq_iff _ _ = ground arith

instance abbrev pub nat_eq : PartialEq ℕ
nat_eq = record { same = nat_beq; same_iff = nat_beq_iff }

instance abbrev pub bytes_eq : PartialEq Bytes
bytes_eq = record { same = bytes_beq; same_iff = bytes_beq_iff }
