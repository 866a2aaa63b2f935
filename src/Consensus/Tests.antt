-- ===== src/Consensus/Tests.antt =====
-- Validator sets and certificates on concrete values, and the theorems at such inputs.
use protonchain.Base.{
  ℕ, ◌≡◌, refl, true, false, some, List, [], ◌∷◌, arith, nat_key, pair_key, replicate,
}
use protonchain.Base.HashMap
use protonchain.Types.{Address, hash_key, address_key, le_bytes, from_le_bytes}
use protonchain.Fixtures.{
  low_hasher, short_bincode, echo_secp, address, hash, validator, four_validators,
}
use protonchain.Consensus.Validators.{
  ValidatorSet, add_validator, get_validator, verify_signature, get_leader, sort_by_address,
  insert_sorted, bytes_lt,
}
use protonchain.Consensus.Quorum.{
  QuorumCertificate, ConsensusPhase, quorum_threshold, counted_stake, stake_weight, verify,
}
use protonchain.Consensus.Quorum.Weight.{contains, endorsers}
use protonchain.Consensus.Quorum.Intersection.{quorum_intersection}
use protonchain.Consensus.Quorum.Repeat.{verify_repeated}

-- What the tests compute with.
engine_code : Unit {0}
unfolding HashMap.get HashMap.insert le_bytes from_le_bytes add_validator get_validator
    verify_signature get_leader sort_by_address insert_sorted bytes_lt quorum_threshold
    counted_stake stake_weight verify
engine_code = tt

abbrev signed_by : ℕ → Address × List ℕ
signed_by n = (address n, n ∷ [])

abbrev certificate : List (Address × List ℕ) → QuorumCertificate
certificate signatures = record {
  block_hash = hash 5;
  height = 1;
  round = 1;
  phase = ConsensusPhase.commit;
  signatures = signatures;
  timestamp = 0;
}

-- Threshold 26 of 40: three of the four validators.
abbrev early : QuorumCertificate
early = certificate (signed_by 1 ∷ signed_by 2 ∷ signed_by 3 ∷ [])

abbrev late : QuorumCertificate
late = certificate (signed_by 4 ∷ signed_by 3 ∷ signed_by 2 ∷ [])

two_are_too_few : verify (certificate (signed_by 1 ∷ signed_by 2 ∷ [])) four_validators ≡ false
unfolding engine_code
two_are_too_few = refl

quorum_intersection_example :
    (a : Address) × (contains a (endorsers four_validators (hash 5) early.signatures) ≡ true)
    × (contains a (endorsers four_validators (hash 5) late.signatures) ≡ true)
unfolding engine_code
quorum_intersection_example =
    quorum_intersection four_validators early late refl (omega arith) (omega arith)
      (refl, (refl, (refl, tt))) (refl, (refl, (refl, tt))) refl refl

-- With four validators of stake 1, two and two are quorums, and have nobody in common.
abbrev units : ValidatorSet
units = record {
  validators =
      (address 1, validator 1 1)
      ∷ (address 2, validator 2 1)
      ∷ (address 3, validator 3 1)
      ∷ (address 4, validator 4 1)
      ∷ [];
  total_stake = 4;
}

units_split :
    (verify (certificate (signed_by 1 ∷ signed_by 2 ∷ [])) units ≡ true)
    × (verify (certificate (signed_by 3 ∷ signed_by 4 ∷ [])) units ≡ true)
unfolding engine_code
units_split = (refl, refl)

-- Validator 1 signs three times.
verify_repeated_example : verify (certificate (replicate 3 (signed_by 1))) four_validators ≡ true
unfolding engine_code
verify_repeated_example =
    verify_repeated four_validators (validator 1 10) (1 ∷ [])
      (certificate (replicate 3 (signed_by 1))) 3 refl refl refl (omega arith) (omega arith)

leaders :
    (get_leader four_validators 0 ≡ some (address 1))
    × (get_leader four_validators 7 ≡ some (address 4))
unfolding engine_code
leaders = (refl, refl)
