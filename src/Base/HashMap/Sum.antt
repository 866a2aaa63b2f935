-- ===== src/Base/HashMap/Sum.antt =====
-- Tables with one entry for each key, and sums over the entries of a table.
use Prim.Native.Nat.{ℕ, ◌+◌}
use mathlib.Core.Path.{◌≡◌, refl}
use mathlib.Core.Option.{Option, none, some}
use mathlib.Core.List.{[], ◌∷◌}
use native.Mathlib.Omega.{arith}
use protonchain.Base.Equality.{Key}
use protonchain.Base.Lists.{length}
use protonchain.Base.Tests.{if◌then◌else◌}
use protonchain.Base.HashMap.{contains_key, HashMap, get, insert, remove, get-insert, get-remove}

-- the weight of an entry that may be absent
abbrev pub weight_of {ℓ} : {V : Type ℓ} → (V → ℕ) → Option V → ℕ
weight_of weight none = 0
weight_of weight (some v) = weight v

abbrev pub sum {ℓ} : {K V : Type ℓ} → (V → ℕ) → HashMap K V → ℕ
sum weight [] = 0
sum weight ((_, v) ∷ m) = weight v + sum weight m

length-sum {ℓ} : {K V : Type ℓ} (m : HashMap K V) → length m ≡ sum (λ _. 1) m
length-sum [] = refl
length-sum (_ ∷ m) = omega (arith, length-sum m)

module _ {ℓ} {K V : Type ℓ} ⦃e : Key K⦄ where
  -- No key has two entries.
  abbrev pub HasDistinctKeys : HashMap K V → Type ℓ
  HasDistinctKeys [] = Unit
  HasDistinctKeys ((k, v) ∷ m) = (get k m ≡ none) × HasDistinctKeys m

  pub insert-HasDistinctKeys :
      (k : K) (v : V) (m : HashMap K V) → HasDistinctKeys m → HasDistinctKeys (insert k v m)
  unfolding insert get
  insert-HasDistinctKeys k v [] w = (refl, tt)
  insert-HasDistinctKeys k v ((j, x) ∷ m) w =
      ground
        (arith, e.same_iff j k, get-insert k j v m, e.same_iff k j, insert-HasDistinctKeys k v m)

  -- Removal leaves a table without the key as it is.
  remove_absent : (k : K) (m : HashMap K V) → get k m ≡ none → remove k m ≡ m
  unfolding get remove
  remove_absent k [] h = refl
  remove_absent k ((j, x) ∷ m) h = ground (arith, remove_absent k m)

  pub remove-HasDistinctKeys :
      (k : K) (m : HashMap K V) → HasDistinctKeys m → HasDistinctKeys (remove k m)
  unfolding remove
  remove-HasDistinctKeys k [] w = tt
  remove-HasDistinctKeys k ((j, x) ∷ m) w =
      ground (arith, get-remove k j m, e.same_iff k j, remove-HasDistinctKeys k m)

  module _ (weight : V → ℕ) where
    pub sum-insert :
        (k : K) (v : V) (m : HashMap K V)
        → sum weight (insert k v m) + weight_of weight (get k m) ≡ sum weight m + weight v
    unfolding get insert
    sum-insert k v [] = omega arith
    sum-insert k v ((j, x) ∷ m) = ground (arith, sum-insert k v m)

    pub sum-remove :
        (k : K) (m : HashMap K V)
        → HasDistinctKeys m
        → sum weight (remove k m) + weight_of weight (get k m) ≡ sum weight m
    unfolding get remove
    sum-remove k [] w = omega arith
    sum-remove k ((j, x) ∷ m) w = ground (arith, sum-remove k m, remove_absent k m, e.same_iff j k)

  -- the number of entries counts the key once
  pub length-insert :
      (k : K) (v : V) (m : HashMap K V)
      → length (insert k v m) ≡ (if contains_key k m then length m else length m + 1)
  unfolding contains_key
  length-insert k v m =
      ground (arith, sum-insert (λ _. 1) k v m, length-sum m, length-sum (insert k v m))

  pub length-remove :
      (k : K) (m : HashMap K V)
      → HasDistinctKeys m
      → length (remove k m) + (if contains_key k m then 1 else 0) ≡ length m
  unfolding contains_key
  length-remove k m w =
      ground (arith, sum-remove (λ _. 1) k m w, length-sum m, length-sum (remove k m))
