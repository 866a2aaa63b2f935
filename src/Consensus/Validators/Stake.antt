-- ===== src/Consensus/Validators/Stake.antt =====
-- The recorded total of a validator set against the stakes that it holds.
use protonchain.Base.{ℕ, ◌+◌, ◌^◌, ◌<◌, ◌≤◌, ◌≡◌, Option, none, some, [], ◌∷◌, arith}
use protonchain.Base.HashMap
use protonchain.Base.HashMap.{HashMap}
use protonchain.Types.{Address, address_key}
use protonchain.Consensus.Validators.{Validator, ValidatorSet, add_validator}

-- The stakes of the entries of a map, summed.
abbrev pub stakes : HashMap Address Validator → ℕ
stakes [] = 0
stakes (e ∷ m) = e.1.stake + stakes m

abbrev stake_or_zero : Option Validator → ℕ
stake_or_zero none = 0
stake_or_zero (some v) = v.stake

-- The stake of an address, 0 if it is not registered.
abbrev pub stake_of : Address → HashMap Address Validator → ℕ
stake_of a m = stake_or_zero (HashMap.get a m)

pub stakes-insert :
    (a : Address) (v : Validator) (m : HashMap Address Validator)
    → stakes (HashMap.insert a v m) + stake_of a m ≡ stakes m + v.stake
unfolding HashMap.insert HashMap.get
stakes-insert a v [] = omega arith
stakes-insert a v ((b, w) ∷ m) = ground (arith, stakes-insert a v m)

pub stakes-remove :
    (a : Address) (m : HashMap Address Validator)
    → stakes (HashMap.remove a m) + stake_of a m ≤ stakes m
unfolding HashMap.remove HashMap.get
stakes-remove a [] = omega arith
stakes-remove a ((b, w) ∷ m) = ground (arith, stakes-remove a m)

-- The sum of the stakes after a registration and the recorded total, if the latter was exact and
-- does not overflow: for a new address they agree; for an address that is registered again the
-- total exceeds the sum by the stake that was replaced.
pub add_validator-total_stake :
    (v : Validator) (set : ValidatorSet)
    → set.total_stake ≡ stakes set.validators
    → set.total_stake + v.stake < 2 ^ 128
    → let set' = add_validator v set in
      set'.total_stake ≡ stakes set'.validators + stake_of v.address set.validators
unfolding add_validator
add_validator-total_stake v set exact fits = omega (arith, stakes-insert v.address v set.validators)
