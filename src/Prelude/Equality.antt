-- ===== src/Prelude/Equality.antt =====
-- One Boolean equality over numbers and texts, and membership by it.
use Prim.Native.Nat.{ℕ}
use Prim.Native.String.{String}
use mathlib.Core.Path.{◌≡◌, refl}
use mathlib.Core.Logic.{◌↔◌, ◌⊎◌, inl, inr}
use mathlib.Core.Bool.{Bool, true, false, ◌||◌, ◌&&◌}
use mathlib.Core.List.{List, [], ◌∷◌}
use native.Mathlib.Omega.{arith}
use text.Mathlib.Text.{◌==◌ as str_eq}
use text.Mathlib.TextEquality.{eq_iff}
use smuggle.Prelude.Tests.{nat_beq, nat_beq_iff}

pub record HasTest {ℓ} (A : Type ℓ) : Type ℓ where
  pub test : A → A → Bool
  pub test_iff : (a b : A) → (test a b ≡ true) ↔ (a ≡ b)

infix 50 ◌==◌
abbrev pub ◌==◌ {ℓ} : {A : Type ℓ} ⦃e : HasTest A⦄ → A → A → Bool
◌==◌ ⦃e⦄ = e.test

instance abbrev pub string_eq : HasTest String
string_eq = record { test = str_eq; test_iff = eq_iff }

instance abbrev pub nat_eq : HasTest ℕ
nat_eq = record { test = nat_beq; test_iff = nat_beq_iff }

-- The laws of a test, in the form that rewriting uses.
module _ {ℓ} {A : Type ℓ} ⦃e : HasTest A⦄ where
  pub ==_refl : (a : A) → (a == a) ≡ true
  ==_refl a = (e.test_iff a a).1 refl

  pub ==_eq : (a b : A) → (a == b) ≡ true → a ≡ b
  ==_eq a b h = (e.test_iff a b).0 h

  pub ==_ne : (a b : A) → (a ≡ b → ⊥) → (a == b) ≡ false
  ==_ne a b h = elim (Bool-split (a == b)) [ inl t ↦ absurd (h (==_eq a b t)) | inr f ↦ f ]
    where
      Bool-split : (c : Bool) → (c ≡ true) ⊎ (c ≡ false)
      Bool-split true = inl refl
      Bool-split false = inr refl

  abbrev pub contains : List A → A → Bool
  contains [] a = false
  contains (x ∷ xs) a = a == x || contains xs a

-- Membership, by computation.
abbrev pub In : {A : Type 0} → A → List A → Type 0
In a [] = ⊥
In a (x ∷ xs) = (a ≡ x) ⊎ In a xs

unfoldable pub list_beq {ℓ} : {A : Type ℓ} ⦃e : HasTest A⦄ → List A → List A → Bool
list_beq [] [] = true
list_beq [] (y ∷ ys) = false
list_beq (x ∷ xs) [] = false
list_beq (x ∷ xs) (y ∷ ys) = x == y && list_beq xs ys

pub list_beq_iff {ℓ} :
    {A : Type ℓ} ⦃e : HasTest A⦄ (xs ys : List A) → (list_beq xs ys ≡ true) ↔ (xs ≡ ys)
unfolding list_beq
list_beq_iff [] [] = (λ h. refl, λ h. refl)
list_beq_iff [] (y ∷ ys) = (λ h. cc, λ h. cc)
list_beq_iff (x ∷ xs) [] = (λ h. cc, λ h. cc)
list_beq_iff ⦃e⦄ (x ∷ xs) (y ∷ ys) = ground (arith, e.test_iff x y, list_beq_iff xs ys)

instance unfoldable pub list_eq {ℓ} : {A : Type ℓ} ⦃e : HasTest A⦄ → HasTest (List A)
unfolding list_beq
list_eq = record { test = list_beq; test_iff = list_beq_iff }
