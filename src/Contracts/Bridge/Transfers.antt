-- ===== src/Contracts/Bridge/Transfers.antt =====
-- The operations on transfers in contracts/bridge.rs.
use protonchain.Base.{
  ℕ, ◌+◌, ◌-◌, ◌%◌, ◌^◌, Bool, not, Option, none, some, List, [], ◌∷◌, ◌++◌, ltb, eqb, ◌&&◌, ◌||◌,
  length, if◌then◌else◌, replicate,
}
use protonchain.Types.{address_of, Hash, Hasher, Address, StealthAddress, digest, le_bytes}
use protonchain.Sdk.Host.{Host, Json}
use protonchain.Sdk.Map
use protonchain.Sdk.Set
use protonchain.Contracts.Staking.{or_zero}
use protonchain.Contracts.Bridge.{
  ChainConfig, ValidatorInfo, PendingTransfer, TransferStatus, Effect, ProtonBridge, signable,
  is_complete, signed, generate_transfer_id,
}

-- the transfer that `initiate_transfer` enters
abbrev pub new_transfer : Hash → ℕ → ℕ → Address → Address → Address → ℕ → ℕ → PendingTransfer
new_transfer id this_chain target_chain caller receiver asset amount now = record {
  transfer_id = id;
  source_chain = this_chain;
  target_chain = target_chain;
  sender = caller;
  receiver = receiver;
  asset = asset;
  amount = amount;
  signatures = [];
  status = TransferStatus.pending;
  timestamp = now;
  encrypted_amount = none;
  stealth_receiver = none;
}

module _ ⦃host : Host⦄ ⦃json_number : Json ℕ⦄ ⦃json_hash : Json Hash⦄
    ⦃json_transfer : Json PendingTransfer⦄ where
  -- `initiate_transfer`
  unfoldable pub initiate_transfer :
      ⦃h : Hasher⦄ ⦃json_chain : Json ChainConfig⦄ ⦃json_asset : Json (ℕ × Address)⦄
      → ℕ
      → ℕ
      → List ℕ
      → Address
      → ℕ
      → Address
      → Address
      → ℕ
      → ProtonBridge
      → Option (Hash × ProtonBridge × List Effect)
  unfolding generate_transfer_id
  initiate_transfer this_chain now random caller target_chain receiver asset amount c =
      elim (Map.get {V = ChainConfig} target_chain c.storage) [
        | none ↦ none
        | some chain ↦
            let id = generate_transfer_id target_chain caller receiver asset amount now random in
            let transfer =
              new_transfer id this_chain target_chain caller receiver asset amount now in
            let current = or_zero (Map.get {K = ℕ × Address} (target_chain, asset) c.storage) in
            let locked =
              Map.insert {K = ℕ × Address} (target_chain, asset) ((current + amount) % 2 ^ 128)
                c.storage in
            if not chain.is_active || Set.contains id c.storage
            then none
            else some (
              id,
              record c { storage = Map.insert id transfer locked },
              Effect.transfer_from asset caller amount ∷ Effect.transfer_initiated transfer ∷ [],
            )
      ]

  -- `initiate_private_transfer`
  unfoldable pub initiate_private_transfer :
      ⦃h : Hasher⦄
      → (List ℕ → Address → Hash → Bool)
      → ℕ
      → ℕ
      → Address
      → ℕ
      → StealthAddress
      → Address
      → List ℕ
      → Hash
      → List ℕ
      → ProtonBridge
      → Option (Hash × ProtonBridge × List Effect)
  initiate_private_transfer verify_amount this_chain now caller target_chain stealth_receiver asset
        encrypted_amount amount_commitment zk_proof c =
      let id =
        digest (le_bytes 8 target_chain ++ caller.bytes ++ encrypted_amount ++ le_bytes 8 now) in
      let transfer : PendingTransfer = record {
        transfer_id = id;
        source_chain = this_chain;
        target_chain = target_chain;
        sender = caller;
        receiver = address_of (replicate 32 0);
        asset = asset;
        amount = 0;
        signatures = [];
        status = TransferStatus.pending;
        timestamp = now;
        encrypted_amount = some encrypted_amount;
        stealth_receiver = some stealth_receiver;
      } in
      if not (verify_amount zk_proof asset amount_commitment)
      then none
      else some (
        id,
        record c { storage = Map.insert id transfer c.storage },
        Effect.lock_private_assets asset caller amount_commitment ∷ [],
      )

  -- `sign_transfer`
  unfoldable pub sign_transfer :
      ⦃json_address : Json Address⦄ ⦃json_validator : Json ValidatorInfo⦄
      → (Address → Hash → List ℕ → Bool)
      → (List ℕ → Hash → Bool)
      → Address
      → Hash
      → List ℕ
      → List ℕ
      → ProtonBridge
      → Option (ProtonBridge × List Effect)
  unfolding signed
  sign_transfer verify_signature verify_merkle caller id signature merkle_proof c =
      elim (Map.get {V = ValidatorInfo} caller c.storage) [
        | none ↦ none
        | some info ↦ elim (Map.get {V = PendingTransfer} id c.storage) [
          | none ↦ none
          | some transfer ↦
              let after = signed c.validator_threshold caller signature transfer in
              if info.is_active
                && signable transfer.status
                && verify_signature caller id signature
                && verify_merkle merkle_proof id
              then some (
                record c { storage = Map.insert id after c.storage },
                Effect.transfer_signed id caller (length after.signatures % 2 ^ 16) ∷ [],
              )
              else none
        ]
      ]

  -- the release or the mint of `execute_transfer`
  unfoldable pub release :
      ⦃json_address : Json Address⦄ ⦃json_asset : Json (ℕ × Address)⦄
      → PendingTransfer
      → ProtonBridge
      → Option (host.Storage × List Effect)
  release transfer c =
      elim (Map.get {K = ℕ × Address} {V = Address} (transfer.source_chain, transfer.asset)
        c.storage) [
          | some wrapped ↦
              some (
                c.storage,
                Effect.mint_wrapped_tokens wrapped transfer.receiver transfer.amount ∷ [],
              )
          | none ↦
              let current =
                or_zero
                  (Map.get {K = ℕ × Address} (transfer.source_chain, transfer.asset) c.storage) in
              if ltb current transfer.amount
              then none
              else some (
                Map.insert {K = ℕ × Address} (transfer.source_chain, transfer.asset)
                    (current - transfer.amount) c.storage,
                Effect.token_transfer transfer.asset transfer.receiver transfer.amount ∷ [],
              )
        ]

  -- `execute_transfer`
  unfoldable pub execute_transfer :
      ⦃json_address : Json Address⦄ ⦃json_asset : Json (ℕ × Address)⦄
      → ℕ
      → Hash
      → ProtonBridge
      → Option (ProtonBridge × List Effect)
  unfolding release
  execute_transfer this_chain id c = elim (Map.get {V = PendingTransfer} id c.storage) [
    | none ↦ none
    | some transfer ↦
        if is_complete transfer.status
          && eqb transfer.target_chain this_chain
          && not (Set.contains id c.storage)
        then elim (release transfer c) [
          | none ↦ none
          | some (storage, effects) ↦ some (
            record c { storage = Map.remove id (Set.insert id storage) },
            effects
                ++ Effect.transfer_executed id this_chain transfer.receiver transfer.amount ∷ [],
          )
        ]
        else none
  ]

  -- `get_transfer_status`
  unfoldable pub get_transfer_status : Hash → ProtonBridge → Option TransferStatus
  get_transfer_status id c = elim (Map.get {V = PendingTransfer} id c.storage) [
    | none ↦ none
    | some transfer ↦ some transfer.status
  ]
