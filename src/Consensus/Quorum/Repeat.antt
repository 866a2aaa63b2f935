-- ===== src/Consensus/Quorum/Repeat.antt =====
-- A certificate in which one signature is repeated.
use protonchain.Base.{
  ℕ, zero, suc, ◌+◌, ◌*◌, ◌%◌, ◌^◌, ◌<◌, ◌≤◌, ◌≡◌, true, some, List, arith, leb_iff, replicate,
}
use protonchain.Types.{Hash}
use protonchain.Consensus.Validators.{
  Secp, Validator, ValidatorSet, get_validator, verify_signature,
}
use protonchain.Consensus.Quorum.{QuorumCertificate, quorum_threshold, stake_weight, verify}

module _ ⦃s : Secp⦄ (set : ValidatorSet) (v : Validator) (sig : List ℕ) where
  stake_weight-replicate :
      (hash : Hash) (n weight : ℕ)
      → get_validator set v.address ≡ some v
      → verify_signature v hash sig ≡ true
      → weight + n * v.stake < 2 ^ 128
      → stake_weight set hash (replicate n (v.address, sig)) weight ≡ weight + n * v.stake
  unfolding stake_weight
  stake_weight-replicate hash zero weight known valid fits = omega arith
  stake_weight-replicate hash (suc n) weight known valid fits =
      ground (arith, stake_weight-replicate hash n ((weight + v.stake) % 2 ^ 128) known valid)

  -- One validator alone forms a quorum: a certificate that holds a single valid signature of a
  -- registered validator `n` times verifies, as soon as `n` times its stake reaches the threshold
  -- (and fits into 128 bits).
  pub verify_repeated :
      (qc : QuorumCertificate) (n : ℕ)
      → get_validator set v.address ≡ some v
      → verify_signature v qc.block_hash sig ≡ true
      → qc.signatures ≡ replicate n (v.address, sig)
      → quorum_threshold set ≤ n * v.stake
      → n * v.stake < 2 ^ 128
      → verify qc set ≡ true
  unfolding verify
  verify_repeated qc n known valid repeated enough fits = rw repeated (
      (leb_iff _ _).1
        (omega (arith, stake_weight-replicate qc.block_hash n 0 known valid (omega arith))))
