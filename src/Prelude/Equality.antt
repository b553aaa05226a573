-- ===== src/Prelude/Equality.antt =====
-- Equality tests as an interface, for the keys of maps; a Go string is its list of bytes.
use Prim.Native.Char.{code}
use Prim.Native.Nat.{ℕ}
use Prim.Native.String.{String}
use mathlib.Core.Path.{◌≡◌}
use mathlib.Core.Logic.{◌↔◌}
use mathlib.Core.Bool.{Bool, true, false, ◌&&◌}
use mathlib.Core.List.{List, [], ◌∷◌}
use native.Mathlib.Omega.{arith}
use llingr_adapter_franz.Prelude.Tests.{nat_beq, nat_beq_iff}
use llingr_adapter_franz.Prelude.Int.{ℤ, beq_ℤ, beq_ℤ_iff}

-- A Boolean test for equality, with its meaning.
pub record HasTest {ℓ} (K : Type ℓ) : Type ℓ where
  pub same : K → K → Bool
  pub same_iff : (x y : K) → (same x y ≡ true) ↔ (x ≡ y)

infix 50 ◌==◌
abbrev pub ◌==◌ {ℓ} : {K : Type ℓ} ⦃o : HasTest K⦄ → K → K → Bool
◌==◌ ⦃o⦄ x y = o.same x y

abbrev pub GoString : Type 0
GoString = List ℕ

abbrev pub text : String → GoString
text String.[] = []
text (String.◌∷◌ c s) = code c ∷ text s

abbrev pub str_beq : GoString → GoString → Bool
str_beq [] [] = true
str_beq (x ∷ xs) (y ∷ ys) = nat_beq x y && str_beq xs ys
str_beq [] (y ∷ ys) = false
str_beq (x ∷ xs) [] = false

pub str_beq_iff : (a b : GoString) → (str_beq a b ≡ true) ↔ (a ≡ b)
str_beq_iff [] [] = ground arith
str_beq_iff (x ∷ xs) (y ∷ ys) = ground (arith, str_beq_iff xs ys)
str_beq_iff [] (y ∷ ys) = ground arith
str_beq_iff (x ∷ xs) [] = ground arith

instance abbrev pub nat_eq : HasTest ℕ
nat_eq = record { same = nat_beq; same_iff = nat_beq_iff }

instance abbrev pub int_eq : HasTest ℤ
int_eq = record { same = beq_ℤ; same_iff = beq_ℤ_iff }

instance abbrev pub string_eq : HasTest GoString
string_eq = record { same = str_beq; same_iff = str_beq_iff }
