-- ===== src/Sdk/Calls.antt =====
-- The functions of src/sdk.rs that call the host, but for the storage: the context, the tokens, the
-- proofs and the events. The host's functions are parameters; they take addresses, hashes and proofs as
-- bytes. A function that only tells the host something returns what it tells.
use protonchain.Base.{ℕ, Bool, List, replicate}
use protonchain.Types.{Hash, Address, StealthAddress}
use protonchain.Privacy.Proofs.{ZkProof}
use protonchain.Sdk.Host.{Json}
use protonchain.Sdk.U256.{U256, to_le_bytes}

-- the functions that are declared in `extern "C"`; those that fill a buffer take and return it
pub record HostFunctions : Type 0 where
  pub host_caller : List ℕ → List ℕ
  pub host_self_address : List ℕ → List ℕ
  pub host_timestamp : ℕ
  pub host_block_height : ℕ
  pub host_is_owner : Bool
  pub host_is_protocol : List ℕ → Bool
  pub host_chain_id : ℕ
  pub host_random : List ℕ → List ℕ
  pub host_balance : List ℕ → List ℕ → ℕ
  pub host_verify_zk : List ℕ → List ℕ → List ℕ → List ℕ → Bool
  pub host_verify_balance : List ℕ → List ℕ → List ℕ → Bool
  pub host_verify_swap : List ℕ → List ℕ → List ℕ → List ℕ → List ℕ → Bool
  pub host_verify_order : List ℕ → List ℕ → List ℕ → Bool
  pub host_verify_stake : List ℕ → List ℕ → List ℕ → List ℕ → Bool
  pub host_verify_metadata : List ℕ → List ℕ → List ℕ → Bool
  pub host_verify_nft_ownership : List ℕ → List ℕ → List ℕ → List ℕ → Bool
  pub host_verify_bridge : List ℕ → List ℕ → List ℕ → Bool
  pub host_verify_merkle : List ℕ → List ℕ → Bool
  pub host_verify_merkle_update : List ℕ → ℕ → List ℕ → Bool

-- what the host is told
pub data HostCall : Type 0 where
  host_transfer : (token to : List ℕ) (amount : ℕ) → HostCall
  host_transfer_from : (token from to : List ℕ) (amount : ℕ) → HostCall
  host_mint : (token to : List ℕ) (amount : ℕ) → HostCall
  host_private_transfer : (token from to amount : List ℕ) → HostCall
  host_lock_private : (token from commitment : List ℕ) → HostCall
  host_emit : (payload : List ℕ) → HostCall

-- `PROTON_TOKEN`
abbrev pub proton_token : Address
proton_token = record { bytes = replicate 20 0 }

unfoldable pub transfer : Address → Address → ℕ → HostCall
transfer token to amount = HostCall.host_transfer token.bytes to.bytes amount

unfoldable pub transfer_from : Address → Address → Address → ℕ → HostCall
transfer_from token from to amount =
    HostCall.host_transfer_from token.bytes from.bytes to.bytes amount

unfoldable pub mint_wrapped_tokens : Address → Address → ℕ → HostCall
mint_wrapped_tokens token to amount = HostCall.host_mint token.bytes to.bytes amount

unfoldable pub private_transfer : Address → Address → Address → List ℕ → HostCall
private_transfer token from to encrypted_amount =
    HostCall.host_private_transfer token.bytes from.bytes to.bytes encrypted_amount

unfoldable pub lock_private_assets : Address → Address → Hash → HostCall
lock_private_assets token from commitment =
    HostCall.host_lock_private token.bytes from.bytes commitment.bytes

-- `emit`, where serde_json serializes every event
unfoldable pub emit : {T : Type 0} ⦃json : Json T⦄ → T → HostCall
emit ⦃json⦄ event = HostCall.host_emit (json.to_vec event)

module _ ⦃host : HostFunctions⦄ where
  unfoldable pub caller : Address
  caller = record { bytes = host.host_caller (replicate 20 0) }

  unfoldable pub self_address : Address
  self_address = record { bytes = host.host_self_address (replicate 20 0) }

  unfoldable pub current_timestamp : ℕ
  current_timestamp = host.host_timestamp

  unfoldable pub current_block_height : ℕ
  current_block_height = host.host_block_height

  unfoldable pub caller_is_owner : Bool
  caller_is_owner = host.host_is_owner

  unfoldable pub is_protocol_address : Address → Bool
  is_protocol_address addr = host.host_is_protocol addr.bytes

  unfoldable pub chain_id : ℕ
  chain_id = host.host_chain_id

  unfoldable pub random_bytes : ℕ → List ℕ
  random_bytes len = host.host_random (replicate len 0)

  unfoldable pub balance_of : Address → Address → ℕ
  balance_of token account = host.host_balance token.bytes account.bytes

  unfoldable pub verify_zk_proof : ZkProof → Hash → Hash → Hash → Bool
  verify_zk_proof proof nullifier commitment root =
      host.host_verify_zk proof.proof_data nullifier.bytes commitment.bytes root.bytes

  unfoldable pub verify_balance_proof : List ℕ → Address → List ℕ → Bool
  verify_balance_proof proof account encrypted_amount =
      host.host_verify_balance proof account.bytes encrypted_amount

  unfoldable pub verify_swap_proof : ZkProof → Address × Address → Hash → List ℕ → Bool
  verify_swap_proof proof pair nullifier encrypted_amount =
      host.host_verify_swap proof.proof_data pair.0.bytes pair.1.bytes nullifier.bytes
        encrypted_amount

  unfoldable pub verify_order_proof : List ℕ → Hash → StealthAddress → Bool
  verify_order_proof proof order_hash stealth =
      host.host_verify_order proof order_hash.bytes stealth.ephemeral_pubkey

  unfoldable pub verify_stake_proof : List ℕ → Address → Hash → Hash → Bool
  verify_stake_proof proof validator commitment nullifier =
      host.host_verify_stake proof validator.bytes commitment.bytes nullifier.bytes

  unfoldable pub verify_metadata_proof : List ℕ → Hash → List ℕ → Bool
  verify_metadata_proof proof metadata_hash encrypted_metadata =
      host.host_verify_metadata proof metadata_hash.bytes encrypted_metadata

  unfoldable pub verify_ownership_proof : ZkProof → U256 → StealthAddress → Hash → Bool
  unfolding to_le_bytes
  verify_ownership_proof proof token_id current_stealth nullifier =
      host.host_verify_nft_ownership proof.proof_data (to_le_bytes token_id)
        current_stealth.ephemeral_pubkey nullifier.bytes

  unfoldable pub verify_bridge_amount_proof : List ℕ → Address → Hash → Bool
  verify_bridge_amount_proof proof asset commitment =
      host.host_verify_bridge proof asset.bytes commitment.bytes

  unfoldable pub verify_merkle_proof : List ℕ → Hash → Bool
  verify_merkle_proof proof transfer_id = host.host_verify_merkle proof transfer_id.bytes

  unfoldable pub verify_merkle_update_proof : List ℕ → ℕ → Hash → Bool
  verify_merkle_update_proof proof chain_id new_root =
      host.host_verify_merkle_update proof chain_id new_root.bytes
