-- ===== src/Consensus/Quorum/Weight.antt =====
-- What the weight of a certificate sums up.
use protonchain.Base.{
  ℕ, ◌+◌, ◌%◌, ◌^◌, ◌<◌, ◌≤◌, ◌≡◌, refl, Bool, false, none, some, List, [], ◌∷◌, ◌++◌, ◌||◌, arith,
  ◌==◌, if◌then◌else◌,
}
use protonchain.Base.HashMap
use protonchain.Base.HashMap.{HashMap}
use protonchain.Types.{Hash, Address, address_key, same_address_iff}
use protonchain.Consensus.Validators.{
  Secp, Validator, ValidatorSet, get_validator, verify_signature,
}
use protonchain.Consensus.Validators.Stake.{stakes, stake_of, stakes-remove}
use protonchain.Consensus.Quorum.{counted_stake, stake_weight}

abbrev pub contains : Address → List Address → Bool
contains a [] = false
contains a (b ∷ ys) = a == b || contains a ys

-- No address stands twice in the list.
abbrev pub IsDistinct : List Address → Type 0
IsDistinct [] = Unit
IsDistinct (a ∷ xs) = (contains a xs ≡ false) × IsDistinct xs

abbrev pub sum_of : HashMap Address Validator → List Address → ℕ
sum_of m [] = 0
sum_of m (a ∷ xs) = stake_of a m + sum_of m xs

-- Taking out one address leaves the stakes of the others.
sum_of-remove :
    (a : Address) (m : HashMap Address Validator) (xs : List Address)
    → contains a xs ≡ false
    → sum_of (HashMap.remove a m) xs ≡ sum_of m xs
sum_of-remove a m [] h = refl
sum_of-remove a m (b ∷ xs) h =
    ground (arith, HashMap.get-remove a b m, same_address_iff a b, sum_of-remove a m xs)

-- Distinct addresses hold together at most what all hold.
pub sum_of-le :
    (xs : List Address) (m : HashMap Address Validator) → IsDistinct xs → sum_of m xs ≤ stakes m
sum_of-le [] m d = omega arith
sum_of-le (a ∷ xs) m d =
    omega
      (arith, sum_of-le xs (HashMap.remove a m) d.1, sum_of-remove a m xs d.0, stakes-remove a m)

pub sum_of-append :
    (m : HashMap Address Validator) (xs ys : List Address)
    → sum_of m (xs ++ ys) ≡ sum_of m xs + sum_of m ys
sum_of-append m [] ys = omega arith
sum_of-append m (a ∷ xs) ys = omega (arith, sum_of-append m xs ys)

module _ ⦃s : Secp⦄ (set : ValidatorSet) (hash : Hash) where
  -- whether a signature counts: by a registered validator, and valid for the block
  abbrev pub counts : Address → List ℕ → Bool
  counts addr sig = elim (get_validator set addr) [
    | none ↦ false
    | some validator ↦ verify_signature validator hash sig
  ]

  -- The signers whose signatures count, each as often as it stands in the certificate.
  abbrev pub endorsers : List (Address × List ℕ) → List Address
  endorsers [] = []
  endorsers ((addr, sig) ∷ rest) = if counts addr sig then addr ∷ endorsers rest else endorsers rest

  counted_stake_lem :
      (addr : Address) (sig : List ℕ)
      → counted_stake set hash addr sig
        ≡ (if counts addr sig then stake_of addr set.validators else 0)
  unfolding counted_stake get_validator
  counted_stake_lem addr sig = ground arith

  -- While the sum fits into 128 bits, the weight is the sum of the stakes of the endorsers.
  pub stake_weight_lem :
      (sigs : List (Address × List ℕ)) (weight : ℕ)
      → weight + sum_of set.validators (endorsers sigs) < 2 ^ 128
      → stake_weight set hash sigs weight ≡ weight + sum_of set.validators (endorsers sigs)
  unfolding stake_weight
  stake_weight_lem [] weight fits = omega arith
  stake_weight_lem ((addr, sig) ∷ rest) weight fits = ground (
    arith,
    counted_stake_lem addr sig,
    stake_weight_lem rest ((weight + counted_stake set hash addr sig) % 2 ^ 128),
  )

  contains-endorsers :
      (a : Address) (sigs : List (Address × List ℕ))
      → contains a (HashMap.keys sigs) ≡ false
      → contains a (endorsers sigs) ≡ false
  contains-endorsers a [] h = refl
  contains-endorsers a ((addr, sig) ∷ rest) h = ground (arith, contains-endorsers a rest)

  -- A certificate that no address signs twice has distinct endorsers.
  pub endorsers-IsDistinct :
      (sigs : List (Address × List ℕ))
      → IsDistinct (HashMap.keys sigs)
      → IsDistinct (endorsers sigs)
  endorsers-IsDistinct [] d = tt
  endorsers-IsDistinct ((addr, sig) ∷ rest) d =
      ground (arith, contains-endorsers addr rest, endorsers-IsDistinct rest d.1)
