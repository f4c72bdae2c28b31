-- ===== src/Prelude/Equality.antt =====
-- `==` on the values that the code compares, and the tests built on it.
use Prim.Native.Nat.{ℕ}
use Prim.Native.String.{String}
use mathlib.Core.Path.{◌≡◌, refl, ap}
use mathlib.Core.Logic.{◌↔◌}
use mathlib.Core.Bool.{Bool, true, false, ◌||◌}
use mathlib.Core.Option.{Option, none, some}
use mathlib.Core.List.{List, [], ◌∷◌}
use text.Mathlib.Text.{◌==◌ as str_eq}
use text.Mathlib.TextEquality.{eq_iff}
use clayseal_receipts.Prelude.Tests.{eqb, eqb_iff, if◌then◌else◌}

pub record Eq {ℓ} (A : Type ℓ) : Type ℓ where
  pub beq : A → A → Bool
  pub beq_iff : (x y : A) → (beq x y ≡ true) ↔ (x ≡ y)

infix 50 ◌!=◌ ◌==◌
module _ {ℓ} {A : Type ℓ} ⦃e : Eq A⦄ where
  abbrev pub ◌!=◌ : A → A → Bool
  ◌!=◌ a b = if e.beq a b then false else true

  abbrev pub ◌==◌ : A → A → Bool
  ◌==◌ a b = e.beq a b

instance abbrev pub nat_eq : Eq ℕ
nat_eq = record { beq = eqb; beq_iff = eqb_iff }

module _ {ℓ} {A : Type ℓ} ⦃e : Eq A⦄ where
  abbrev pub option_beq : Option A → Option A → Bool
  option_beq none none = true
  option_beq none (some b) = false
  option_beq (some a) none = false
  option_beq (some a) (some b) = e.beq a b

  pub option_beq_iff : (a b : Option A) → (option_beq a b ≡ true) ↔ (a ≡ b)
  option_beq_iff none none = ((λ _. refl), (λ _. refl))
  option_beq_iff none (some b) = ((λ h. cc), (λ h. cc))
  option_beq_iff (some a) none = ((λ h. cc), (λ h. cc))
  option_beq_iff (some a) (some b) =
      ((λ h. ap some ((e.beq_iff a b).0 h)), (λ h. (e.beq_iff a b).1 (cc)))

instance abbrev pub option_eq {ℓ} : {A : Type ℓ} ⦃e : Eq A⦄ → Eq (Option A)
option_eq = record { beq = option_beq; beq_iff = option_beq_iff }

module _ {ℓ} {A : Type ℓ} ⦃e : Eq A⦄ where
  -- `a in xs`, of a list or of a set given by its elements
  abbrev pub contains : List A → A → Bool
  contains [] a = false
  contains (x ∷ xs) a = e.beq x a || contains xs a

  pub beq_self : (a : A) → e.beq a a ≡ true
  beq_self a = (e.beq_iff a a).1 refl

  -- `d.get(k)` of an association list, the first binding first
  abbrev pub lookup {κ} : {V : Type κ} → A → List (A × V) → Option V
  lookup k [] = none
  lookup k ((j, v) ∷ m) = if e.beq j k then some v else lookup k m

  pub Eq-discrete : Discrete A
  Eq-discrete a b = go (e.beq a b) refl
    where
      go : (t : Bool) → e.beq a b ≡ t → Dec (a ≡ b)
      go true h = yes ((e.beq_iff a b).0 h)
      go false h = no (λ same. cc ((e.beq_iff a b).1 same))

-- `==` of two `str`
instance abbrev pub string_eq : Eq String
string_eq = record { beq = str_eq; beq_iff = eq_iff }

pub String-discrete : Discrete String
String-discrete = Eq-discrete
