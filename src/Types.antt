-- ===== src/Types.antt =====
-- The core data types of src/types/mod.rs. A byte is a natural number, a `Vec<u8>` or byte array
-- a list of them, and an integer of w bits a natural number below 2 ^ w.
mod Ids
pub mod Merkle
pub use Ids.{Hasher, Hash, Address, StealthAddress, hash_key, address_key}
pub use Ids.{same_hash, same_hash_iff, same_address, same_address_iff}
unfoldable pub use Ids.{digest, zero_hash, address_of, derive_stealth, le_bytes, from_le_bytes}
use protonchain.Base.{ℕ, ◌*◌, ◌%◌, ◌^◌, Bool, true, false, ◌||◌, Option, none, some, List, []}

pub data TransactionType : Type 0 where
  transfer contract_deploy contract_call stake unstake cross_chain private_transfer :
      TransactionType

pub record Transaction : Type 0 where
  pub tx_type : TransactionType
  pub nonce : ℕ
  pub from : Address
  pub to : Option Address
  pub value : ℕ
  pub gas_price : ℕ
  pub gas_limit : ℕ
  pub payload : List ℕ
  pub shard_id : ℕ
  pub timestamp : ℕ
  pub signature : List ℕ
  pub stealth_address : Option StealthAddress
  pub zk_proof : Option (List ℕ)
  pub encrypted_amount : Option (List ℕ)

pub record BlockHeader : Type 0 where
  pub version : ℕ
  pub prev_hash : Hash
  pub merkle_root : Hash
  pub state_root : Hash
  pub shard_id : ℕ
  pub height : ℕ
  pub timestamp : ℕ
  pub validator : Address
  pub signature : List ℕ
  pub tx_count : ℕ
  pub gas_used : ℕ
  pub extra_data : List ℕ

pub record ShardProof : Type 0 where
  pub shard_id : ℕ
  pub block_hash : Hash
  pub state_root : Hash
  pub signature : List ℕ

pub record Block : Type 0 where
  pub header : BlockHeader
  pub transactions : List Transaction
  pub shard_proofs : List ShardProof

pub record Account : Type 0 where
  pub nonce : ℕ
  pub balance : ℕ
  pub code_hash : Option Hash
  pub storage_root : Hash
  pub validator_stake : ℕ
  pub is_contract : Bool
  pub view_key : Option (List ℕ)
  pub spend_key : Option (List ℕ)

-- `Account::default()`
abbrev pub default_account : Account
default_account = record {
  nonce = 0;
  balance = 0;
  code_hash = none;
  storage_root = zero_hash;
  validator_stake = 0;
  is_contract = false;
  view_key = none;
  spend_key = none;
}

pub record ChainConfig : Type 0 where
  pub chain_id : ℕ
  pub shard_count : ℕ
  pub block_time_ms : ℕ
  pub min_gas_price : ℕ
  pub max_block_gas : ℕ
  pub validator_count : ℕ
  pub epoch_length : ℕ
  pub privacy_enabled : Bool
  pub cross_chain_enabled : Bool

-- `ChainConfig::default()`
abbrev pub default_config : ChainConfig
default_config = record {
  chain_id = 1337;
  shard_count = 64;
  block_time_ms = 300;
  min_gas_price = 1;
  max_block_gas = 50_000_000;
  validator_count = 128;
  epoch_length = 1000;
  privacy_enabled = true;
  cross_chain_enabled = true;
}

-- `bincode::serialize` of the two types that are hashed; `none` is its error.
pub record Bincode : Type 0 where
  pub serialize_transaction : Transaction → Option (List ℕ)
  pub serialize_header : BlockHeader → Option (List ℕ)

-- `unwrap_or_default()` of a byte vector
abbrev bytes_or_default : Option (List ℕ) → List ℕ
bytes_or_default none = []
bytes_or_default (some bytes) = bytes

module _ ⦃h : Hasher⦄ ⦃b : Bincode⦄ where
  -- `Transaction::hash`
  unfoldable pub transaction_hash : Transaction → Hash
  transaction_hash tx = digest (bytes_or_default (b.serialize_transaction tx))

  -- `BlockHeader::hash`
  unfoldable pub header_hash : BlockHeader → Hash
  header_hash header = digest (bytes_or_default (b.serialize_header header))

-- `Transaction::is_private`
unfoldable pub is_private : Transaction → Bool
is_private tx =
    elim tx.tx_type [ TransactionType.private_transfer ↦ true | _ ↦ false ]
    || elim tx.zk_proof [ none ↦ false | some _ ↦ true ]

-- `Transaction::gas_cost`, on `u128`
unfoldable pub gas_cost : Transaction → ℕ
gas_cost tx = tx.gas_price * tx.gas_limit % 2 ^ 128
