-- ===== src/Consensus/Engine.antt =====
-- `HotStuffConsensus` of src/consensus/mod.rs: its state and the methods that read or change it.
-- The background task of `start` proposes nothing and is left out, and so are the two channel ends
-- and the secret key, which no method uses.
mod Tests
pub mod Height
pub mod Validation
use protonchain.Base.{
  ℕ, ◌+◌, ◌-◌, ◌%◌, ◌^◌, Bool, true, false, not, Option, none, some, List, [], ◌∷◌, map, ltb, ◌==◌,
  nat_key, if◌then◌else◌, length,
}
use protonchain.Base.HashMap
use protonchain.Base.HashMap.{HashMap}
use protonchain.Types.{
  Hash, Hasher, Bincode, Address, Transaction, Block, ChainConfig, hash_key, address_key,
  transaction_hash, header_hash, zero_hash,
}
use protonchain.Types.Merkle.{root}
use protonchain.Consensus.Validators.{
  Secp, ValidatorSet, get_leader, get_validator, verify_signature,
}
use protonchain.Consensus.Quorum.{ConsensusPhase, QuorumCertificate}
use protonchain.Consensus.Mempool
use protonchain.Consensus.Mempool.{Mempool}

pub record Engine : Type 0 where
  pub config : ChainConfig
  pub validator_set : ValidatorSet
  pub current_height : ℕ
  pub current_round : ℕ
  pub phase : ConsensusPhase
  pub blocks : HashMap ℕ Block
  pub qcs : HashMap ℕ QuorumCertificate
  pub mempool : Mempool
  pub my_address : Address
  pub blocks_proposed : ℕ
  pub blocks_finalized : ℕ
  pub avg_latency_ms : ℕ

-- `HotStuffConsensus::new`
unfoldable pub new_engine : ChainConfig → ValidatorSet → Address → Engine
unfolding Mempool.new_mempool
new_engine config validator_set my_address = record {
  config = config;
  validator_set = validator_set;
  current_height = 0;
  current_round = 0;
  phase = ConsensusPhase.new_view;
  blocks = [];
  qcs = [];
  mempool = Mempool.new_mempool 100_000;
  my_address = my_address;
  blocks_proposed = 0;
  blocks_finalized = 0;
  avg_latency_ms = 0;
}

-- `get_block`
unfoldable pub get_block : Engine → ℕ → Option Block
get_block engine height = HashMap.get height engine.blocks

-- `get_latest_height` and `get_mempool`
unfoldable pub get_latest_height : Engine → ℕ
get_latest_height engine = engine.current_height

unfoldable pub get_mempool : Engine → Mempool
get_mempool engine = engine.mempool

-- `ConsensusStats` and `get_stats`
pub record ConsensusStats : Type 0 where
  pub height : ℕ
  pub round : ℕ
  pub blocks_proposed : ℕ
  pub blocks_finalized : ℕ
  pub mempool_size : ℕ
  pub avg_latency_ms : ℕ

unfoldable pub get_stats : Engine → ConsensusStats
unfolding Mempool.size
get_stats engine = record {
  height = engine.current_height;
  round = engine.current_round;
  blocks_proposed = engine.blocks_proposed;
  blocks_finalized = engine.blocks_finalized;
  mempool_size = Mempool.size engine.mempool;
  avg_latency_ms = engine.avg_latency_ms;
}

module _ ⦃h : Hasher⦄ ⦃b : Bincode⦄ where
  -- the Merkle root over the transactions' hashes
  abbrev pub transactions_root : List Transaction → Hash
  transactions_root txs = root (map transaction_hash txs)

  -- the block over the selected transactions
  unfoldable pub build_block : Engine → Hash → ℕ → List Transaction → Block
  unfolding zero_hash
  build_block engine prev_hash timestamp txs = record {
    header = record {
      version = 1;
      prev_hash = prev_hash;
      merkle_root = transactions_root txs;
      state_root = zero_hash;
      shard_id = 0;
      height = (engine.current_height + 1) % 2 ^ 64;
      timestamp = timestamp;
      validator = engine.my_address;
      signature = [];
      tx_count = length txs % 2 ^ 32;
      gas_used = 0;
      extra_data = [];
    };
    transactions = txs;
    shard_proofs = [];
  }

  -- `None` if there is no transaction
  propose_over : Engine → Hash → ℕ → List Transaction → Option Block
  propose_over engine prev_hash timestamp [] = none
  propose_over engine prev_hash timestamp (tx ∷ txs) =
      some (build_block engine prev_hash timestamp (tx ∷ txs))

  -- `propose_block`; the clock's reading is an argument
  unfoldable pub propose_block : Engine → Hash → ℕ → Option Block
  unfolding propose_over build_block
  propose_block engine prev_hash timestamp =
      propose_over engine prev_hash timestamp
        (Mempool.get_transactions engine.mempool 1000 engine.config.min_gas_price)

  -- `finalize_block`
  unfoldable pub finalize_block : Engine → Block → Engine
  finalize_block engine block = record engine {
    blocks = HashMap.insert block.header.height block engine.blocks;
    mempool = Mempool.remove_transactions (map transaction_hash block.transactions) engine.mempool;
    blocks_finalized = (engine.blocks_finalized + 1) % 2 ^ 64;
  }

  module _ ⦃s : Secp⦄ where
    -- the four checks of `validate_block`, in the order of the source
    unfoldable pub has_parent : Engine → Block → Bool
    has_parent engine block =
        if ltb 0 block.header.height
        then HashMap.contains_key (block.header.height - 1) engine.blocks
        else true

    unfoldable pub is_from_leader : Engine → Block → Bool
    is_from_leader engine block = elim (get_leader engine.validator_set block.header.height) [
      | none ↦ true
      | some leader ↦ leader == block.header.validator
    ]

    unfoldable pub is_signed : Engine → Block → Bool
    is_signed engine block = elim (get_validator engine.validator_set block.header.validator) [
      | none ↦ true
      | some v ↦ verify_signature v (header_hash block.header) block.header.signature
    ]

    -- `validate_block`
    unfoldable pub validate_block : Engine → Block → Bool
    validate_block engine block =
        if not (has_parent engine block)
        then false
        else (if not (transactions_root block.transactions == block.header.merkle_root)
            then false
            else (if not (is_from_leader engine block)
                then false
                else (if not (is_signed engine block) then false else true)))
