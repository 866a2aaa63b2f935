-- ===== src/Contracts/Staking/Tests.antt =====
-- The staking contract on concrete values.
use protonchain.Base.{
  take-append, drop-append, ap, ℕ, ◌≡◌, refl, Option, none, some, List, [], ◌∷◌, ◌++◌, length, take,
  drop,
}
use protonchain.Fixtures.{flag, read_flag, read_flag-flag, address}
use protonchain.Sdk.Host.{Json}
use protonchain.Sdk.Examples.{table_host, number_json, address_json, pair_json}
use protonchain.Contracts.Staking.{
  ValidatorInfo, Effect, ProtonStaking, new_info, stake, process_unbonding,
}
use protonchain.Contracts.Staking.Unbonding.{process_unbonding_lem}

abbrev info_vec : ValidatorInfo → List ℕ
info_vec i =
    i.stake
      ∷ i.commission
      ∷ flag i.is_active
      ∷ i.total_delegated
      ∷ i.uptime
      ∷ i.blocks_proposed
      ∷ length i.owner.bytes
      ∷ i.owner.bytes
    ++ i.encrypted_rewards

abbrev read_info : List ℕ → Option ValidatorInfo
read_info (stake ∷ commission ∷ active ∷ total ∷ uptime ∷ blocks ∷ n ∷ bytes) = some (record {
  owner = record { bytes = take n bytes };
  stake = stake;
  commission = commission;
  is_active = read_flag active;
  total_delegated = total;
  uptime = uptime;
  blocks_proposed = blocks;
  encrypted_rewards = drop n bytes;
})
read_info _ = none

read_info-info_vec : (i : ValidatorInfo) → read_info (info_vec i) ≡ some i
read_info-info_vec i =
    rw
      (
        take-append (length i.owner.bytes) i.owner.bytes i.encrypted_rewards refl,
        drop-append (length i.owner.bytes) i.owner.bytes i.encrypted_rewards refl,
        read_flag-flag i.is_active,
      )
      refl

instance abbrev info_json : Json ValidatorInfo
info_json = record {
  to_vec = info_vec;
  from_slice = read_info;
  from_slice-to_vec = read_info-info_vec;
}

-- address 3 is a validator on which address 1 has a delegation of 500
abbrev staking : ProtonStaking
staking = record {
  storage =
      (
        0 ∷ 3 ∷ [],
        info_vec (record (new_info (address 3) 500 0) { stake = 500; total_delegated = 500 }),
      )
      ∷ (1 ∷ 1 ∷ 1 ∷ 3 ∷ [], 500 ∷ [])
      ∷ [];
  total_staked = 500;
  min_stake = 100;
  commission_base = 0;
  epoch = 0;
  unbonding_period = 20;
  unbonding_queue =
      record { delegator = address 1; validator = address 3; amount = 5; unlock_height = 9 }
      ∷ record { delegator = address 2; validator = address 3; amount = 6; unlock_height = 30 }
      ∷ record { delegator = address 2; validator = address 3; amount = 7; unlock_height = 10 }
      ∷ [];
}

abbrev third : ValidatorInfo
third = record (new_info (address 3) 500 0) { stake = 500; total_delegated = 500 }

-- At height 10 the first and the third entry are due.
process_unbonding_lem_example :
    (process_unbonding 10 staking).1
    ≡ Effect.transfer (address 1) 5 ∷ Effect.transfer (address 2) 7 ∷ []
process_unbonding_lem_example = ap (λ r. r.1) (process_unbonding_lem 10 staking)
