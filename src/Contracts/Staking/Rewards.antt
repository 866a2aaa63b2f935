-- ===== src/Contracts/Staking/Rewards.antt =====
-- The rest of contracts/staking.rs: the private stake, the rewards and the listings. The proofs and
-- the test for a protocol address are functions of the host.
use protonchain.Base.{
  zero, suc, ℕ, ◌+◌, ◌*◌, ◌/◌, ◌%◌, ◌^◌, ◌≡◌, refl, Bool, true, not, Option, none, some, List, [],
  ◌∷◌, map, take, leb, if◌then◌else◌,
}
use protonchain.Types.{Hash, Address}
use protonchain.Sdk.Host.{Host, Json}
use protonchain.Sdk.Map
use protonchain.Contracts.Staking.{ValidatorInfo, Effect, ProtonStaking}

-- `filter(|(_, info)| info.is_active)`
abbrev pub active_only : List (Address × ValidatorInfo) → List (Address × ValidatorInfo)
active_only [] = []
active_only ((addr, info) ∷ rest) =
    if info.is_active then (addr, info) ∷ active_only rest else active_only rest

-- `sort_by(|a, b| b.1.cmp(&a.1))`, a stable sort
abbrev insert_by_stake : Address × ℕ → List (Address × ℕ) → List (Address × ℕ)
insert_by_stake p [] = p ∷ []
insert_by_stake p (q ∷ rest) = if leb q.1 p.1 then p ∷ q ∷ rest else q ∷ insert_by_stake p rest

unfoldable pub sort_by_stake : List (Address × ℕ) → List (Address × ℕ)
sort_by_stake [] = []
sort_by_stake (p ∷ rest) = insert_by_stake p (sort_by_stake rest)

take-nil : {A : Type 0} (count : ℕ) → take {A = A} count [] ≡ []
take-nil zero = refl
take-nil (suc _) = refl

module _ ⦃host : Host⦄ ⦃json_address : Json Address⦄ ⦃json_pair : Json (Address × Address)⦄
    ⦃json_info : Json ValidatorInfo⦄ ⦃json_amount : Json ℕ⦄ where
  -- `private_stake`
  unfoldable pub private_stake :
      ⦃json_hash : Json Hash⦄ ⦃json_bytes : Json (List ℕ)⦄
      → (List ℕ → Address → Hash → Hash → Bool)
      → Address
      → Address
      → List ℕ
      → List ℕ
      → Hash
      → Hash
      → ProtonStaking
      → Option (ProtonStaking × List Effect)
  private_stake verify_stake_proof caller validator encrypted_amount proof commitment nullifier c =
      let stored = Map.insert commitment encrypted_amount c.storage in
      if not (verify_stake_proof proof validator commitment nullifier)
      then none
      else elim (Map.get {V = ValidatorInfo} validator stored) [
        | none ↦ none
        | some info ↦ some (
          record c { storage = Map.insert validator (record info { is_active = true }) stored },
          Effect.staked caller validator 0 ∷ [],
        )
      ]

  -- the loop over the listed rewards, with the total
  unfoldable pub pay_rewards : List (Address × ℕ) → host.Storage → ℕ → host.Storage × ℕ
  pay_rewards [] storage total = (storage, total)
  pay_rewards ((validator, reward) ∷ rest) storage total =
      elim (Map.get {V = ValidatorInfo} validator storage) [
        | none ↦ pay_rewards rest storage total
        | some info ↦
            let commission = reward * info.commission % 2 ^ 128 / 10_000 in
            pay_rewards rest
              (Map.insert validator (record info { stake = (info.stake + commission) % 2 ^ 128 })
                storage)
              ((total + reward) % 2 ^ 128)
      ]

  -- `distribute_rewards`; the map of the rewards is one more view of the storage
  unfoldable pub distribute_rewards :
      (Address → Bool) → Address → ProtonStaking → Option (ProtonStaking × List Effect)
  unfolding pay_rewards
  distribute_rewards is_protocol_address caller c =
      if not (is_protocol_address caller)
      then none
      else (let (storage, total) = pay_rewards (Map.iter c.storage) c.storage 0 in
          let epoch = (c.epoch + 1) % 2 ^ 64 in
          some (record c { storage = storage; epoch = epoch }, Effect.distributed epoch total ∷ []))

  -- `get_active_validators`
  unfoldable pub get_active_validators : ProtonStaking → List Address
  get_active_validators c = map (λ e. e.0) (active_only (Map.iter c.storage))

  -- `get_validator_set`
  unfoldable pub get_validator_set : ℕ → ProtonStaking → List (Address × ℕ)
  unfolding sort_by_stake
  get_validator_set count c =
      take count (sort_by_stake (map (λ e. (e.0, e.1.stake)) (active_only (Map.iter c.storage))))

  -- Since a map lists nothing, a distribution of rewards by the protocol pays nobody: it only counts
  -- the epoch on and reports a total of 0; and both listings of the validators are empty, whatever
  -- validators are active.
  pub distribute_rewards_lem :
      (is_protocol_address : Address → Bool) (caller : Address) (count : ℕ) (c : ProtonStaking)
      → is_protocol_address caller ≡ true
      → (distribute_rewards is_protocol_address caller c
          ≡ some (
            record c { epoch = (c.epoch + 1) % 2 ^ 64 },
            Effect.distributed ((c.epoch + 1) % 2 ^ 64) 0 ∷ [],
          ))
        × (get_active_validators c ≡ [])
        × (get_validator_set count c ≡ [])
  unfolding distribute_rewards get_active_validators get_validator_set Map.iter
  distribute_rewards_lem is_protocol_address caller count c allowed =
      (rw allowed refl, refl, take-nil count)
