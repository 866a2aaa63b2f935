-- ===== src/Base/Equality.antt =====
-- Equality of keys as an interface: a Boolean test that decides paths.
use Prim.Native.Nat.{ℕ}
use mathlib.Core.Path.{◌≡◌, refl}
use mathlib.Core.Logic.{◌↔◌}
use mathlib.Core.Bool.{Bool, true, false, ◌&&◌}
use mathlib.Core.List.{List, [], ◌∷◌}
use native.Mathlib.Omega.{arith}
use protonchain.Base.Tests.{eqb, eqb_iff}

abbrev pub same_list : List ℕ → List ℕ → Bool
same_list [] [] = true
same_list [] (_ ∷ _) = false
same_list (_ ∷ _) [] = false
same_list (x ∷ xs) (y ∷ ys) = eqb x y && same_list xs ys

pub same_list_iff : (xs ys : List ℕ) → (same_list xs ys ≡ true) ↔ (xs ≡ ys)
same_list_iff [] [] = ground arith
same_list_iff [] (y ∷ ys) = ground arith
same_list_iff (x ∷ xs) [] = ground arith
same_list_iff (x ∷ xs) (y ∷ ys) = ground (arith, same_list_iff xs ys)

-- The Boolean test of a key type, with the theorem that it decides paths.
pub record Key {ℓ} (A : Type ℓ) : Type ℓ where
  pub same : A → A → Bool
  pub same_iff : (x y : A) → (same x y ≡ true) ↔ (x ≡ y)

instance abbrev pub list_key : Key (List ℕ)
list_key = record { same = same_list; same_iff = same_list_iff }

instance abbrev pub nat_key : Key ℕ
nat_key = record { same = eqb; same_iff = eqb_iff }

module _ {ℓ} {A : Type ℓ} ⦃e : Key A⦄ where
  infix 50 ◌==◌
  abbrev pub ◌==◌ : A → A → Bool
  x == y = e.same x y

  pub ==_refl : (x : A) → (x == x) ≡ true
  ==_refl x = (e.same_iff x x).1 refl

module _ {ℓ} {A B : Type ℓ} ⦃e : Key A⦄ ⦃f : Key B⦄ where
  abbrev pub same_pair : A × B → A × B → Bool
  same_pair p q = p.0 == q.0 && p.1 == q.1

  pub same_pair_iff : (p q : A × B) → (same_pair p q ≡ true) ↔ (p ≡ q)
  same_pair_iff p q = ground (arith, e.same_iff p.0 q.0, f.same_iff p.1 q.1)

  instance abbrev pub pair_key : Key (A × B)
  pair_key = record { same = same_pair; same_iff = same_pair_iff }
