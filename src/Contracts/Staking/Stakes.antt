-- ===== src/Contracts/Staking/Stakes.antt =====
-- Stakes, and what becomes of them when they are taken back.
use protonchain.Base.{
  ℕ, ◌+◌, ◌-◌, ◌%◌, ◌^◌, ◌≤◌, ◌≡◌, ◌≢◌, refl, sym, ap, ◌∙◌, Bool, true, none, some, [], ◌∷◌, ◌++◌,
  arith, leb, eqb, inl, inr, Bool-cases,
}
use protonchain.Types.{Address}
use protonchain.Sdk.Host.{Host, Json}
use protonchain.Sdk.Map
use protonchain.Contracts.Staking.{
  ValidatorInfo, Effect, ProtonStaking, or_zero, get_validator, get_delegation, info_staked,
  info_unstaked, lower_delegation, stake, unstake,
}

-- Two values with one JSON form are the same.
to_vec_injective : {A : Type 0} ⦃json : Json A⦄ (a b : A) → json.to_vec a ≡ json.to_vec b → a ≡ b
to_vec_injective ⦃json⦄ a b e =
    let both : some a ≡ some b =
      sym (json.from_slice-to_vec a) ∙ ap json.from_slice e ∙ json.from_slice-to_vec b in
    ap (λ o. elim o [ none ↦ a | some x ↦ x ]) both

-- the numbers of a validator after it gained or lost a stake
abbrev pub with_stake : ℕ → ℕ → Bool → ValidatorInfo → ValidatorInfo
with_stake stake total active info = record info {
  stake = stake;
  total_delegated = total;
  is_active = active;
}

module _ ⦃host : Host⦄ ⦃json_address : Json Address⦄ ⦃json_pair : Json (Address × Address)⦄
    ⦃json_info : Json ValidatorInfo⦄ ⦃json_amount : Json ℕ⦄
    (apart : (a : Address) (p : Address × Address)
      → json_address.to_vec a ≢ json_pair.to_vec p) where
  lower_delegation-get :
      (key : Address × Address) (current amount : ℕ) (s : host.Storage)
      → or_zero (Map.get key (lower_delegation key current amount s)) ≡ current - amount
  unfolding lower_delegation
  lower_delegation-get key current amount s = elim (Bool-cases (eqb current amount)) [
    | inl same ↦ rw (same, Map.get-remove_self {V = ℕ} key s) (ground arith)
    | inr other ↦ rw (other, Map.get-insert_self key (current - amount) s) refl
  ]

  lower_delegation-validator :
      (key : Address × Address) (current amount : ℕ) (a : Address) (s : host.Storage)
      → Map.get {V = ValidatorInfo} a (lower_delegation key current amount s) ≡ Map.get a s
  unfolding lower_delegation
  lower_delegation-validator key current amount a s =
      let ne : json_pair.to_vec key ≢ json_address.to_vec a = λ e. apart a key (sym e) in
      elim (Bool-cases (eqb current amount)) [
        | inl same ↦ rw same (Map.get-remove_other key a ne s)
        | inr other ↦ rw other (Map.get-insert_other key a ne s (current - amount))
      ]

  module _ (caller validator : Address) (amount : ℕ) (c : ProtonStaking)
      (info : ValidatorInfo) where
    -- A stake of at least the minimum on a registered validator is accepted. It raises the caller's
    -- delegation, the total and the validator's two sums by the amount (modulo 2 ^ 128), and every
    -- other delegation stays as it is. (No address has the JSON form of a pair of addresses.)
    pub stake_lem :
        c.min_stake ≤ amount
        → get_validator validator c ≡ some info
        → (c' : ProtonStaking) × (stake caller validator amount c
            ≡ some (
              c',
              Effect.transfer_from caller amount ∷ Effect.staked caller validator amount ∷ [],
            ))
          × (get_delegation caller validator c'
              ≡ (get_delegation caller validator c + amount) % 2 ^ 128)
          × (c'.total_staked ≡ (c.total_staked + amount) % 2 ^ 128)
          × (get_validator validator c' ≡ some (info_staked c.min_stake amount info))
          × ((p : Address × Address)
              → p ≢ (caller, validator)
              → get_delegation p.0 p.1 c' ≡ get_delegation p.0 p.1 c)
    unfolding stake get_validator get_delegation
    stake_lem enough known =
        let key : Address × Address = (caller, validator) in
        let sum = (get_delegation caller validator c + amount) % 2 ^ 128 in
        let inner = Map.insert key sum c.storage in
        let info' = info_staked c.min_stake amount info in
        let accepted : leb c.min_stake amount ≡ true = ground arith in
        (
          record c {
            storage = Map.insert validator info' inner;
            total_staked = (c.total_staked + amount) % 2 ^ 128;
          },
          rw (accepted, known) refl,
          rw
              (
                Map.get-insert_other validator key (apart validator key) inner info',
                Map.get-insert_self key sum c.storage,
              )
              refl,
          refl,
          Map.get-insert_self validator info' inner,
          λ p ne. ap or_zero (
              Map.get-insert_other validator p (apart validator p) inner info'
              ∙ Map.get-insert_other key p (λ e. ne (sym (to_vec_injective key p e))) c.storage
                  sum),
        )

    -- A caller that takes back no more than its delegation from a registered validator succeeds. The
    -- delegation and the total fall by the amount, the validator's two sums fall by it, and the
    -- amount waits at the end of the queue until the unbonding period is over. (The total
    -- and the validator's sums are taken modulo 2 ^ 128; no address has the JSON form of a pair of
    -- addresses.)
    pub unstake_lem :
        (height : ℕ)
        → amount ≤ get_delegation caller validator c
        → get_validator validator c ≡ some info
        → (c' : ProtonStaking) × (unstake caller height validator amount c
            ≡ some (
              c',
              Effect.unstaked caller validator amount ((height + c.unbonding_period) % 2 ^ 64) ∷ [],
            ))
          × (get_delegation caller validator c' ≡ get_delegation caller validator c - amount)
          × (c'.total_staked ≡ (2 ^ 128 + c.total_staked - amount) % 2 ^ 128)
          × (get_validator validator c' ≡ some (info_unstaked c.min_stake amount info))
          × (c'.unbonding_queue
              ≡ c.unbonding_queue
                ++ record {
                  delegator = caller;
                  validator = validator;
                  amount = amount;
                  unlock_height = (height + c.unbonding_period) % 2 ^ 64;
                }
                  ∷ [])
    unfolding unstake get_validator get_delegation
    unstake_lem height enough known =
        let key : Address × Address = (caller, validator) in
        let current = get_delegation caller validator c in
        let lowered = lower_delegation key current amount c.storage in
        let info' = info_unstaked c.min_stake amount info in
        let accepted : leb amount current ≡ true = ground arith in
        let found : Map.get {V = ValidatorInfo} validator lowered ≡ some info =
          lower_delegation-validator key current amount validator c.storage ∙ known in
        (
          record c {
            storage = Map.insert validator info' lowered;
            total_staked = (2 ^ 128 + c.total_staked - amount) % 2 ^ 128;
            unbonding_queue =
                c.unbonding_queue
                ++ record {
                  delegator = caller;
                  validator = validator;
                  amount = amount;
                  unlock_height = (height + c.unbonding_period) % 2 ^ 64;
                }
                  ∷ [];
          },
          rw (accepted, found) refl,
          ap or_zero (Map.get-insert_other validator key (apart validator key) lowered info')
              ∙ lower_delegation-get key current amount c.storage,
          refl,
          Map.get-insert_self validator info' lowered,
          refl,
        )
