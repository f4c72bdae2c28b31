-- ===== src/Prelude/Int.antt =====
-- The integers of Python, with the order that the code tests.
use Prim.Native.Nat.{ℕ}
use mathlib.Core.Path.{◌≡◌, refl, ap}
use mathlib.Core.Logic.{◌↔◌, ◌⊎◌, inl, inr}
use mathlib.Core.Bool.{Bool, true, false}
use clayseal_receipts.Prelude.Tests.{ltb, leb, eqb, eqb_iff}
use clayseal_receipts.Prelude.Equality.{Eq}

-- `negsuc n` is -(n + 1)
pub data ℤ : Type 0 where
  pos : ℕ → ℤ
  negsuc : ℕ → ℤ

abbrev pub ltℤ : ℤ → ℤ → Bool
ltℤ (pos a) (pos b) = ltb a b
ltℤ (pos a) (negsuc b) = false
ltℤ (negsuc a) (pos b) = true
ltℤ (negsuc a) (negsuc b) = ltb b a

abbrev pub leℤ : ℤ → ℤ → Bool
leℤ (pos a) (pos b) = leb a b
leℤ (pos a) (negsuc b) = false
leℤ (negsuc a) (pos b) = true
leℤ (negsuc a) (negsuc b) = leb b a

abbrev pub eqℤ : ℤ → ℤ → Bool
eqℤ (pos a) (pos b) = eqb a b
eqℤ (pos a) (negsuc b) = false
eqℤ (negsuc a) (pos b) = false
eqℤ (negsuc a) (negsuc b) = eqb a b

pub eqℤ_iff : (a b : ℤ) → (eqℤ a b ≡ true) ↔ (a ≡ b)
eqℤ_iff (pos a) (pos b) = ((λ h. ap pos ((eqb_iff a b).0 h)), (λ h. (eqb_iff a b).1 (cc)))
eqℤ_iff (pos a) (negsuc b) = ((λ h. cc), (λ h. cc))
eqℤ_iff (negsuc a) (pos b) = ((λ h. cc), (λ h. cc))
eqℤ_iff (negsuc a) (negsuc b) = ((λ h. ap negsuc ((eqb_iff a b).0 h)), (λ h. (eqb_iff a b).1 (cc)))

instance abbrev pub int_eq : Eq ℤ
int_eq = record { beq = eqℤ; beq_iff = eqℤ_iff }

pub ℤ-cases : (z : ℤ) → ((n : ℕ) × (z ≡ pos n)) ⊎ ((n : ℕ) × (z ≡ negsuc n))
ℤ-cases (pos n) = inl (n, refl)
ℤ-cases (negsuc n) = inr (n, refl)
