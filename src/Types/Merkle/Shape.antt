-- ===== src/Types/Merkle/Shape.antt =====
-- The loop of `MerkleTree::root`: how it ends, and its fuel.
use protonchain.Base.{
  ℕ, zero, suc, ◌+◌, ◌*◌, ◌/◌, ◌≤◌, ◌<◌, ◌≡◌, refl, ap, ◌++◌, List, [], ◌∷◌, ◌∙◌, length,
  length-append, arith,
}
use protonchain.Types.Ids.{Hasher, Hash}
use protonchain.Types.Merkle.{node, level, climb, first_or_zero, root}

module _ ⦃h : Hasher⦄ where
  -- A round halves the number of hashes, rounding up.
  pub length-level : (xs : List Hash) → length (level xs) ≡ (length xs + 1) / 2
  unfolding level
  length-level [] = omega arith
  length-level (x ∷ []) = omega arith
  length-level (x ∷ y ∷ rest) = omega (arith, length-level rest)

  -- With fuel for the number of hashes, the loop ends because its test fails.
  pub length-climb :
      (fuel : ℕ) (xs : List Hash) → length xs ≤ fuel → 0 < length xs → length (climb fuel xs) ≡ 1
  unfolding climb
  length-climb zero xs le pos = absurd (omega arith)
  length-climb (suc fuel) [] le pos = absurd (omega arith)
  length-climb (suc fuel) (x ∷ []) le pos = refl
  length-climb (suc fuel) (x ∷ y ∷ rest) le pos =
      length-climb fuel (level (x ∷ y ∷ rest)) (omega (arith, length-level (x ∷ y ∷ rest)))
        (omega (arith, length-level (x ∷ y ∷ rest)))

  -- More fuel than hashes changes nothing.
  pub climb_fuel :
      (fuel more : ℕ) (xs : List Hash)
      → length xs ≤ fuel
      → length xs ≤ more
      → climb fuel xs ≡ climb more xs
  unfolding climb
  climb_fuel zero zero xs le le' = refl
  climb_fuel zero (suc more) [] le le' = refl
  climb_fuel zero (suc more) (x ∷ xs) le le' = absurd (omega arith)
  climb_fuel (suc fuel) zero [] le le' = refl
  climb_fuel (suc fuel) zero (x ∷ xs) le le' = absurd (omega arith)
  climb_fuel (suc fuel) (suc more) [] le le' = refl
  climb_fuel (suc fuel) (suc more) (x ∷ []) le le' = refl
  climb_fuel (suc fuel) (suc more) (x ∷ y ∷ rest) le le' =
      climb_fuel fuel more (level (x ∷ y ∷ rest)) (omega (arith, length-level (x ∷ y ∷ rest)))
        (omega (arith, length-level (x ∷ y ∷ rest)))

  -- A last hash that stands alone is paired with itself, so writing it twice is the same.
  level_repeat_last :
      (k : ℕ) (xs : List Hash) (z : Hash)
      → length xs ≡ 2 * k
      → level (xs ++ z ∷ []) ≡ level (xs ++ z ∷ z ∷ [])
  unfolding level
  level_repeat_last k [] z e = refl
  level_repeat_last k (x ∷ []) z e = absurd (omega arith)
  level_repeat_last zero (x ∷ y ∷ xs) z e = absurd (omega arith)
  level_repeat_last (suc k) (x ∷ y ∷ xs) z e =
      ap (◌∷◌ (node x y)) (level_repeat_last k xs z (omega arith))

  -- The root of an odd number of leaves, three or more, is also that of the list with its last
  -- leaf written twice.
  pub root_repeat_last :
      (k : ℕ) (xs : List Hash) (z : Hash)
      → length xs ≡ 2 * suc k
      → root (xs ++ z ∷ []) ≡ root (xs ++ z ∷ z ∷ [])
  unfolding root climb
  root_repeat_last k [] z e = absurd (omega arith)
  root_repeat_last k (x ∷ []) z e = absurd (omega arith)
  root_repeat_last k (x ∷ y ∷ xs) z e = ap first_or_zero (
      ap (λ l. climb (suc (length (xs ++ z ∷ []))) (node x y ∷ l))
        (level_repeat_last k xs z (omega arith))
      ∙ climb_fuel (suc (length (xs ++ z ∷ []))) (suc (length (xs ++ z ∷ z ∷ [])))
          (node x y ∷ level (xs ++ z ∷ z ∷ []))
          (omega (
            arith,
            length-level (xs ++ z ∷ z ∷ []),
            length-append xs (z ∷ z ∷ []),
            length-append xs (z ∷ []),
          ))
          (omega (
            arith,
            length-level (xs ++ z ∷ z ∷ []),
            length-append xs (z ∷ z ∷ []),
            length-append xs (z ∷ []),
          )))
