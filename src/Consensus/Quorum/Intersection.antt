-- ===== src/Consensus/Quorum/Intersection.antt =====
-- Two quorums share a validator, and what it rests on.
use protonchain.Base.{
  ◌^◌, ◌<◌, ◌≤◌, ◌≡◌, inl, inr, refl, true, Option, none, some, List, [], ◌∷◌, ◌++◌, ◌||◌, arith,
  if◌then◌else◌, leb_iff, Option-cases,
}
use protonchain.Base.HashMap
use protonchain.Base.HashMap.{HashMap}
use protonchain.Types.{Address, address_key, same_address_iff}
use protonchain.Consensus.Validators.{Secp, ValidatorSet}
use protonchain.Consensus.Validators.Stake.{stakes}
use protonchain.Consensus.Quorum.{QuorumCertificate, quorum_threshold, verify}
use protonchain.Consensus.Quorum.Weight.{
  contains, IsDistinct, sum_of, sum_of-le, sum_of-append, endorsers, endorsers-IsDistinct,
  stake_weight_lem,
}

-- A member of both lists, if there is one.
abbrev shared : List Address → List Address → Option Address
shared [] ys = none
shared (x ∷ xs) ys = if contains x ys then some x else shared xs ys

contains-append :
    (a : Address) (xs ys : List Address) → contains a (xs ++ ys) ≡ (contains a xs || contains a ys)
contains-append a [] ys = refl
contains-append a (x ∷ xs) ys = ground (arith, contains-append a xs ys)

append-IsDistinct :
    (xs ys : List Address)
    → IsDistinct xs
    → IsDistinct ys
    → shared xs ys ≡ none
    → IsDistinct (xs ++ ys)
append-IsDistinct [] ys d d' h = d'
append-IsDistinct (x ∷ xs) ys d d' h =
    ground (arith, contains-append x xs ys, append-IsDistinct xs ys d.1 d')

shared-contains :
    (xs ys : List Address) (a : Address)
    → shared xs ys ≡ some a
    → (contains a xs ≡ true) × (contains a ys ≡ true)
shared-contains [] ys a h = cc
shared-contains (x ∷ xs) ys a h =
    ground (arith, shared-contains xs ys a, same_address_iff a x, same_address_iff x x)

module _ ⦃s : Secp⦄ (set : ValidatorSet) where
  -- A certificate that verifies has endorsers with the threshold of stake.
  verify-sum_of :
      (qc : QuorumCertificate)
      → stakes set.validators < 2 ^ 128
      → IsDistinct (HashMap.keys qc.signatures)
      → verify qc set ≡ true
      → quorum_threshold set ≤ sum_of set.validators (endorsers set qc.block_hash qc.signatures)
  unfolding verify
  verify-sum_of qc fits d v =
      let xs = endorsers set qc.block_hash qc.signatures in
      let d' = endorsers-IsDistinct set qc.block_hash qc.signatures d in
      let bound = sum_of-le xs set.validators d' in
      omega (
        arith,
        bound,
        (leb_iff _ _).0 v,
        stake_weight_lem set qc.block_hash qc.signatures 0 (omega (arith, bound)),
      )

  -- Two groups of distinct addresses without a common member cannot both have the threshold.
  disjoint_too_heavy :
      (xs ys : List Address)
      → set.total_stake ≡ stakes set.validators
      → 4 < set.total_stake
      → set.total_stake < 2 ^ 127
      → IsDistinct (xs ++ ys)
      → quorum_threshold set ≤ sum_of set.validators xs
      → quorum_threshold set ≤ sum_of set.validators ys
      → ⊥
  unfolding quorum_threshold
  disjoint_too_heavy xs ys exact big fits d p q =
      omega (arith, sum_of-le (xs ++ ys) set.validators d, sum_of-append set.validators xs ys)

  -- Quorum intersection: if the recorded total is the sum of the stakes, above 4 and below
  -- 2 ^ 127, then any two certificates that verify, neither with an address twice, have a common
  -- address whose signature counts in both.
  pub quorum_intersection :
      (qc qc' : QuorumCertificate)
      → set.total_stake ≡ stakes set.validators
      → 4 < set.total_stake
      → set.total_stake < 2 ^ 127
      → IsDistinct (HashMap.keys qc.signatures)
      → IsDistinct (HashMap.keys qc'.signatures)
      → verify qc set ≡ true
      → verify qc' set ≡ true
      → (a : Address) × (contains a (endorsers set qc.block_hash qc.signatures) ≡ true)
        × (contains a (endorsers set qc'.block_hash qc'.signatures) ≡ true)
  quorum_intersection qc qc' exact big fits d d' v v' =
      let xs = endorsers set qc.block_hash qc.signatures in
      let ys = endorsers set qc'.block_hash qc'.signatures in
      elim (Option-cases (shared xs ys)) [
        | inl apart ↦ absurd (
            disjoint_too_heavy xs ys exact big fits
              (append-IsDistinct xs ys (endorsers-IsDistinct set qc.block_hash qc.signatures d)
                (endorsers-IsDistinct set qc'.block_hash qc'.signatures d') apart)
              (verify-sum_of qc (omega arith) d v) (verify-sum_of qc' (omega arith) d' v'))
        | inr (a, both) ↦ let (left, right) = shared-contains xs ys a both in (a, left, right)
      ]
