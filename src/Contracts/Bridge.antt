-- ===== src/Contracts/Bridge.antt =====
-- contracts/bridge.rs. A failed `require!` or `expect` reverts the call: the result is `none`. The
-- caller, the owner's check, the clock, the random bytes, the chain's number and the checks of
-- signatures and proofs, which the host makes, are arguments; the calls of tokens and the events are
-- listed in the order of their issue. Arithmetic wraps.
pub mod Transfers
pub mod Signatures
pub mod Execution
pub mod Chains
mod Tests
use protonchain.Base.{
  ℕ, ◌+◌, ◌-◌, ◌%◌, ◌^◌, Bool, true, false, not, Option, none, some, List, [], ◌∷◌, ◌++◌, ltb, eqb,
  ◌&&◌, ◌||◌, length, if◌then◌else◌, replicate,
}
use protonchain.Types.{Hash, Hasher, Address, StealthAddress, digest, le_bytes}
use protonchain.Sdk.Host.{Host, Json}
use protonchain.Sdk.Map
use protonchain.Sdk.Set
use protonchain.Contracts.Staking.{or_zero}

pub record ChainConfig : Type 0 where
  pub chain_id : ℕ
  pub bridge_contract : Address
  pub is_active : Bool
  pub gas_limit : ℕ
  pub confirmation_blocks : ℕ

pub record ValidatorInfo : Type 0 where
  pub address : Address
  pub stake : ℕ
  pub is_active : Bool
  pub last_signature : ℕ

pub data TransferStatus : Type 0 where
  pending : TransferStatus
  source_confirmed : TransferStatus
  signatures_complete : TransferStatus
  executed : TransferStatus
  failed : TransferStatus

pub record PendingTransfer : Type 0 where
  pub transfer_id : Hash
  pub source_chain : ℕ
  pub target_chain : ℕ
  pub sender : Address
  pub receiver : Address
  pub asset : Address
  pub amount : ℕ
  pub signatures : List (Address × List ℕ)
  pub status : TransferStatus
  pub timestamp : ℕ
  pub encrypted_amount : Option (List ℕ)
  pub stealth_receiver : Option StealthAddress

-- The calls of tokens, with the token first and without the contract's own address, and the events
-- with their fields.
pub data Effect : Type 0 where
  transfer_from : Address → Address → ℕ → Effect
  lock_private_assets : Address → Address → Hash → Effect
  mint_wrapped_tokens : Address → Address → ℕ → Effect
  token_transfer : Address → Address → ℕ → Effect
  chain_added : ℕ → Address → Effect
  transfer_initiated : PendingTransfer → Effect
  transfer_signed : Hash → Address → ℕ → Effect
  transfer_executed : Hash → ℕ → Address → ℕ → Effect

-- the statuses in which `sign_transfer` takes a signature
abbrev pub signable : TransferStatus → Bool
signable TransferStatus.pending = true
signable TransferStatus.source_confirmed = true
signable TransferStatus.signatures_complete = false
signable TransferStatus.executed = false
signable TransferStatus.failed = false

-- `status == TransferStatus::SignaturesComplete`
abbrev pub is_complete : TransferStatus → Bool
is_complete TransferStatus.pending = false
is_complete TransferStatus.source_confirmed = false
is_complete TransferStatus.signatures_complete = true
is_complete TransferStatus.executed = false
is_complete TransferStatus.failed = false

-- the configuration that `add_chain` enters
abbrev pub new_chain : ℕ → Address → ℕ → ChainConfig
new_chain chain_id bridge_contract confirmation_blocks = record {
  chain_id = chain_id;
  bridge_contract = bridge_contract;
  is_active = true;
  gas_limit = 500_000;
  confirmation_blocks = confirmation_blocks;
}

-- the transfer with one more signature, and its status by the number of signatures
unfoldable pub signed : ℕ → Address → List ℕ → PendingTransfer → PendingTransfer
signed threshold validator signature t =
    let signatures = t.signatures ++ (validator, signature) ∷ [] in
    record t {
      signatures = signatures;
      status =
          if ltb (length signatures % 2 ^ 16) threshold
          then TransferStatus.source_confirmed
          else TransferStatus.signatures_complete;
    }

-- `generate_transfer_id`
unfoldable pub generate_transfer_id :
    ⦃h : Hasher⦄ → ℕ → Address → Address → Address → ℕ → ℕ → List ℕ → Hash
generate_transfer_id target_chain sender receiver asset amount now random = digest (
    le_bytes 8 target_chain
    ++ sender.bytes
    ++ receiver.bytes
    ++ asset.bytes
    ++ le_bytes 16 amount
    ++ le_bytes 8 now
    ++ random)

module _ ⦃host : Host⦄ where
  pub record ProtonBridge : Type 0 where
    pub storage : host.Storage
    pub validator_threshold : ℕ
    pub zk_vk : List ℕ

  -- `new`, on the storage as the contract finds it
  unfoldable pub new_bridge : host.Storage → ℕ → ProtonBridge
  new_bridge storage validator_threshold = record {
    storage = storage;
    validator_threshold = validator_threshold;
    zk_vk = [];
  }

  module _ ⦃json_number : Json ℕ⦄ where
    -- `add_chain`
    unfoldable pub add_chain :
        ⦃json_chain : Json ChainConfig⦄
        → Bool
        → ℕ
        → Address
        → ℕ
        → ProtonBridge
        → Option (ProtonBridge × List Effect)
    add_chain is_owner chain_id bridge_contract confirmation_blocks c =
        if not is_owner || Map.contains_key ChainConfig chain_id c.storage
        then none
        else some (
          record c {
            storage =
                Map.insert chain_id (new_chain chain_id bridge_contract confirmation_blocks)
                  c.storage;
          },
          Effect.chain_added chain_id bridge_contract ∷ [],
        )

    -- `update_merkle_root`
    unfoldable pub update_merkle_root :
        ⦃json_hash : Json Hash⦄
        → (List ℕ → ℕ → Hash → Bool)
        → ℕ
        → Hash
        → List ℕ
        → ProtonBridge
        → Option ProtonBridge
    update_merkle_root verify_merkle_update_proof chain_id new_root zk_proof c =
        if not (verify_merkle_update_proof zk_proof chain_id new_root)
        then none
        else some (record c { storage = Map.insert chain_id new_root c.storage })

  -- `get_locked_amount`
  unfoldable pub get_locked_amount :
      ⦃json_asset : Json (ℕ × Address)⦄ ⦃json_number : Json ℕ⦄ → ℕ → Address → ProtonBridge → ℕ
  get_locked_amount chain_id asset c =
      or_zero (Map.get {K = ℕ × Address} (chain_id, asset) c.storage)

  module _ ⦃json_asset : Json (ℕ × Address)⦄ ⦃json_number : Json ℕ⦄
      ⦃json_address : Json Address⦄ where
    -- `register_wrapped_asset`
    unfoldable pub register_wrapped_asset :
        Bool → ℕ → Address → Address → ProtonBridge → Option ProtonBridge
    register_wrapped_asset is_owner chain_id remote_asset local_asset c =
        if not is_owner
        then none
        else some (record c {
          storage = Map.insert {K = ℕ × Address} (chain_id, remote_asset) local_asset c.storage;
        })

    -- `get_wrapped_asset`
    unfoldable pub get_wrapped_asset : ℕ → Address → ProtonBridge → Option Address
    get_wrapped_asset chain_id remote_asset c =
        Map.get {K = ℕ × Address} (chain_id, remote_asset) c.storage

  -- `add_validator`
  unfoldable pub add_validator :
      ⦃json_address : Json Address⦄ ⦃json_validator : Json ValidatorInfo⦄
      → Bool
      → Address
      → ℕ
      → ProtonBridge
      → Option ProtonBridge
  add_validator is_owner validator stake c =
      if not is_owner
      then none
      else some (record c {
        storage =
            Map.insert {V = ValidatorInfo} validator
              (record { address = validator; stake = stake; is_active = true; last_signature = 0 })
              c.storage;
      })
