-- ===== src/Types/Merkle.antt =====
-- `MerkleTree::root` of src/types/mod.rs.
pub mod Shape
pub mod Collision
use protonchain.Base.{ℕ, zero, suc, ◌++◌, List, [], ◌∷◌, length}
use protonchain.Types.Ids.{Hasher, Hash, digest, zero_hash}

module _ ⦃h : Hasher⦄ where
  -- the hash of a node over its two children
  unfoldable pub node : Hash → Hash → Hash
  unfolding digest
  node left right = digest (left.bytes ++ right.bytes)

  -- One round of the `while` loop: `chunks(2)`, an odd last hash paired with itself.
  unfoldable pub level : List Hash → List Hash
  unfolding node
  level [] = []
  level (x ∷ []) = node x x ∷ []
  level (x ∷ y ∷ rest) = node x y ∷ level rest

  -- The loop, `while current.len() > 1`, with fuel.
  unfoldable pub climb : ℕ → List Hash → List Hash
  unfolding level
  climb zero current = current
  climb (suc fuel) [] = []
  climb (suc fuel) (x ∷ []) = x ∷ []
  climb (suc fuel) (x ∷ y ∷ rest) = climb fuel (level (x ∷ y ∷ rest))

  -- `current[0]`; the loop ends with one hash, so the index is never out of range.
  abbrev first_or_zero : List Hash → Hash
  first_or_zero [] = zero_hash
  first_or_zero (x ∷ _) = x

  -- `MerkleTree::root`
  unfoldable pub root : List Hash → Hash
  unfolding climb
  root [] = zero_hash
  root (x ∷ rest) = first_or_zero (climb (length (x ∷ rest)) (x ∷ rest))
