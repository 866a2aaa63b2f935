-- ===== src/Consensus/Quorum.antt =====
-- `ConsensusPhase` and `QuorumCertificate` of src/consensus/mod.rs.
pub mod Weight
pub mod Intersection
pub mod Repeat
use protonchain.Base.{
  ℕ, ◌+◌, ◌*◌, ◌/◌, ◌%◌, ◌^◌, Bool, true, false, none, some, List, [], ◌∷◌, leb, if◌then◌else◌,
}
use protonchain.Types.{Hash, Address}
use protonchain.Consensus.Validators.{Secp, ValidatorSet, get_validator, verify_signature}

pub data ConsensusPhase : Type 0 where
  new_view prepare pre_commit commit decide : ConsensusPhase

pub record QuorumCertificate : Type 0 where
  pub block_hash : Hash
  pub height : ℕ
  pub round : ℕ
  pub phase : ConsensusPhase
  pub signatures : List (Address × List ℕ)
  pub timestamp : ℕ

-- `validator_set.total_stake() * 2 / 3`, on `u128`
unfoldable pub quorum_threshold : ValidatorSet → ℕ
quorum_threshold set = set.total_stake * 2 % 2 ^ 128 / 3

module _ ⦃s : Secp⦄ where
  -- what one signature adds to `stake_weight`
  unfoldable pub counted_stake : ValidatorSet → Hash → Address → List ℕ → ℕ
  counted_stake set hash addr sig = elim (get_validator set addr) [
    | none ↦ 0
    | some validator ↦ if verify_signature validator hash sig then validator.stake else 0
  ]

  -- the loop over the signatures, with `stake_weight` on `u128`
  unfoldable pub stake_weight : ValidatorSet → Hash → List (Address × List ℕ) → ℕ → ℕ
  unfolding counted_stake
  stake_weight set hash [] weight = weight
  stake_weight set hash ((addr, sig) ∷ rest) weight =
      stake_weight set hash rest ((weight + counted_stake set hash addr sig) % 2 ^ 128)

  -- `QuorumCertificate::verify`
  unfoldable pub verify : QuorumCertificate → ValidatorSet → Bool
  unfolding stake_weight quorum_threshold
  verify qc set = leb (quorum_threshold set) (stake_weight set qc.block_hash qc.signatures 0)
