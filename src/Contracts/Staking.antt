-- ===== src/Contracts/Staking.antt =====
-- contracts/staking.rs. The maps of the contract stand in the storage of the host. A failed
-- `require!`, `expect` or `unwrap` reverts the call: the result is `none`. The caller and the block
-- height are arguments; calls of the token and events are listed in the order of their issue.
-- The arithmetic wraps, as in the node.
pub mod Stakes
pub mod Unbonding
pub mod Rewards
mod Tests
use protonchain.Base.{
  ℕ, zero, suc, ◌+◌, ◌-◌, ◌*◌, ◌/◌, ◌%◌, ◌^◌, Bool, true, false, not, Option, none, some, List, [],
  ◌∷◌, ◌++◌, max, ltb, leb, eqb, if◌then◌else◌,
}
use protonchain.Types.{Hash, Address}
use protonchain.Sdk.Host.{Host, Json}
use protonchain.Sdk.Map

pub record ValidatorInfo : Type 0 where
  pub owner : Address
  pub stake : ℕ
  pub commission : ℕ
  pub is_active : Bool
  pub total_delegated : ℕ
  pub uptime : ℕ
  pub blocks_proposed : ℕ
  pub encrypted_rewards : List ℕ

pub record UnbondingEntry : Type 0 where
  pub delegator : Address
  pub validator : Address
  pub amount : ℕ
  pub unlock_height : ℕ

-- The calls of the native token, and the events `ValidatorRegistered`, `Staked`, `Unstaked` and
-- `RewardsDistributed` with their fields.
pub data Effect : Type 0 where
  transfer_from : Address → ℕ → Effect
  transfer : Address → ℕ → Effect
  registered : Address → ℕ → Effect
  staked : Address → Address → ℕ → Effect
  unstaked : Address → Address → ℕ → ℕ → Effect
  distributed : ℕ → ℕ → Effect

-- `unwrap_or(0)`
abbrev pub or_zero : Option ℕ → ℕ
or_zero none = 0
or_zero (some n) = n

-- the indices of the entries whose time has come, counted from `i`
unfoldable pub matured_indices : ℕ → ℕ → List UnbondingEntry → List ℕ
matured_indices height i [] = []
matured_indices height i (entry ∷ rest) =
    if leb entry.unlock_height height
    then i ∷ matured_indices height (suc i) rest
    else matured_indices height (suc i) rest

-- the transfers of the same loop
unfoldable pub matured_transfers : ℕ → List UnbondingEntry → List Effect
matured_transfers height [] = []
matured_transfers height (entry ∷ rest) =
    if leb entry.unlock_height height
    then Effect.transfer entry.delegator entry.amount ∷ matured_transfers height rest
    else matured_transfers height rest

-- `Vec::remove`; it panics out of range, which does not occur
unfoldable pub remove_at : {A : Type 0} → ℕ → List A → List A
remove_at i [] = []
remove_at zero (x ∷ xs) = xs
remove_at (suc i) (x ∷ xs) = x ∷ remove_at i xs

-- the second loop, over the indices in reverse
unfoldable pub remove_indices : {A : Type 0} → List ℕ → List A → List A
unfolding remove_at
remove_indices [] xs = xs
remove_indices (i ∷ rest) xs = remove_at i (remove_indices rest xs)

-- the record of a validator that registers
abbrev pub new_info : Address → ℕ → ℕ → ValidatorInfo
new_info owner commission commission_base = record {
  owner = owner;
  stake = 0;
  commission = max commission commission_base;
  is_active = false;
  total_delegated = 0;
  uptime = 0;
  blocks_proposed = 0;
  encrypted_rewards = [];
}

-- the validator after `stake`
unfoldable pub info_staked : ℕ → ℕ → ValidatorInfo → ValidatorInfo
info_staked min_stake amount info =
    let stake = (info.stake + amount) % 2 ^ 128 in
    record info {
      stake = stake;
      total_delegated = (info.total_delegated + amount) % 2 ^ 128;
      is_active = if leb min_stake stake then true else info.is_active;
    }

-- the validator after `unstake`
unfoldable pub info_unstaked : ℕ → ℕ → ValidatorInfo → ValidatorInfo
info_unstaked min_stake amount info =
    let stake = (2 ^ 128 + info.stake - amount) % 2 ^ 128 in
    record info {
      stake = stake;
      total_delegated = (2 ^ 128 + info.total_delegated - amount) % 2 ^ 128;
      is_active = if ltb stake min_stake then false else info.is_active;
    }

module _ ⦃host : Host⦄ where
  pub record ProtonStaking : Type 0 where
    pub storage : host.Storage
    pub total_staked : ℕ
    pub min_stake : ℕ
    pub commission_base : ℕ
    pub epoch : ℕ
    pub unbonding_period : ℕ
    pub unbonding_queue : List UnbondingEntry

  -- `new`, on the storage as the contract finds it
  unfoldable pub new_staking : host.Storage → ℕ → ℕ → ℕ → ProtonStaking
  new_staking storage min_stake commission_base unbonding_period = record {
    storage = storage;
    total_staked = 0;
    min_stake = min_stake;
    commission_base = commission_base;
    epoch = 0;
    unbonding_period = unbonding_period;
    unbonding_queue = [];
  }

  -- `process_unbonding`
  unfoldable pub process_unbonding : ℕ → ProtonStaking → ProtonStaking × List Effect
  unfolding matured_indices matured_transfers remove_indices
  process_unbonding height c = (
    record c {
      unbonding_queue =
          remove_indices (matured_indices height 0 c.unbonding_queue) c.unbonding_queue;
    },
    matured_transfers height c.unbonding_queue,
  )

  module _ ⦃json_address : Json Address⦄ ⦃json_pair : Json (Address × Address)⦄
      ⦃json_info : Json ValidatorInfo⦄ ⦃json_amount : Json ℕ⦄ where
    -- `get_validator`
    unfoldable pub get_validator : Address → ProtonStaking → Option ValidatorInfo
    get_validator validator c = Map.get validator c.storage

    -- `get_delegation`
    unfoldable pub get_delegation : Address → Address → ProtonStaking → ℕ
    get_delegation delegator validator c =
        or_zero (Map.get {K = Address × Address} (delegator, validator) c.storage)

    -- `register_validator`
    unfoldable pub register_validator :
        Address → ℕ → ProtonStaking → Option (ProtonStaking × List Effect)
    register_validator caller commission c =
        if not (leb commission 10_000)
        then none
        else (if Map.contains_key ValidatorInfo caller c.storage
            then none
            else some (
              record c {
                storage =
                    Map.insert caller (new_info caller commission c.commission_base) c.storage;
              },
              Effect.registered caller commission ∷ [],
            ))

    -- `stake`
    unfoldable pub stake :
        Address → Address → ℕ → ProtonStaking → Option (ProtonStaking × List Effect)
    unfolding get_validator
    stake caller validator amount c =
        if not (leb c.min_stake amount) then none else elim (get_validator validator c) [
          | none ↦ none
          | some info ↦ some (
            record c {
              storage = Map.insert validator (info_staked c.min_stake amount info) (
                  Map.insert {K = Address × Address} (caller, validator)
                    ((get_delegation caller validator c + amount) % 2 ^ 128) c.storage);
              total_staked = (c.total_staked + amount) % 2 ^ 128;
            },
            Effect.transfer_from caller amount ∷ Effect.staked caller validator amount ∷ [],
          )
        ]

    -- the delegations after `unstake`: an empty one is removed
    unfoldable pub lower_delegation : Address × Address → ℕ → ℕ → host.Storage → host.Storage
    lower_delegation key current amount storage =
        if eqb current amount
        then Map.remove key storage
        else Map.insert key (current - amount) storage

    -- `unstake`
    unfoldable pub unstake :
        Address → ℕ → Address → ℕ → ProtonStaking → Option (ProtonStaking × List Effect)
    unstake caller height validator amount c =
        let current = get_delegation caller validator c in
        let lowered = lower_delegation (caller, validator) current amount c.storage in
        let unlock_height = (height + c.unbonding_period) % 2 ^ 64 in
        if not (leb amount current)
        then none
        else elim (Map.get {V = ValidatorInfo} validator lowered) [
          | none ↦ none
          | some info ↦ some (
            record c {
              storage = Map.insert validator (info_unstaked c.min_stake amount info) lowered;
              total_staked = (2 ^ 128 + c.total_staked - amount) % 2 ^ 128;
              unbonding_queue =
                  c.unbonding_queue
                  ++ record {
                    delegator = caller;
                    validator = validator;
                    amount = amount;
                    unlock_height = unlock_height;
                  }
                    ∷ [];
            },
            Effect.unstaked caller validator amount unlock_height ∷ [],
          )
        ]
