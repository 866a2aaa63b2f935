-- ===== src/Sdk/Commitments.antt =====
-- `update_merkle_root` of src/sdk.rs, by which the contracts add a commitment to a root.
use protonchain.Base.{◌≡◌, refl, [], ◌∷◌, ◌++◌}
use protonchain.Types.{Hash, Hasher, digest}
use protonchain.Types.Merkle.{root, climb, level, node}

module _ ⦃h : Hasher⦄ where
  unfoldable pub update_merkle_root : Hash → Hash → Hash
  update_merkle_root current commitment = digest (current.bytes ++ commitment.bytes)

  -- The updated root is the Merkle root of the old root and the commitment, as the node computes it.
  pub update_merkle_root-root :
      (current commitment : Hash)
      → update_merkle_root current commitment ≡ root (current ∷ commitment ∷ [])
  unfolding update_merkle_root root climb level node
  update_merkle_root-root current commitment = refl
