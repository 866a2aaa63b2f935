-- ===== src/Consensus/Engine/Tests.antt =====
-- The engine on concrete blocks, and the theorems at such inputs.
use protonchain.Base.{
  ℕ, ◌≡◌, ◌⊎◌, ◌↔◌, refl, true, false, some, List, [], ◌∷◌, map, nat_key, length,
}
use protonchain.Base.HashMap
use protonchain.Types.{
  Transaction, Block, hash_key, address_key, default_config, digest, le_bytes, from_le_bytes,
  transaction_hash, header_hash, zero_hash,
}
use protonchain.Types.Merkle.{root, climb, level, node}
use protonchain.Types.Merkle.Collision.{Collides, root_inputs, root_binding}
use protonchain.Fixtures.{
  low_hasher, short_bincode, echo_secp, address, hash, transaction, four_validators,
}
use protonchain.Consensus.Validators.{
  get_validator, verify_signature, get_leader, sort_by_address, insert_sorted, bytes_lt,
}
use protonchain.Consensus.Mempool.{
  Mempool, remove_transactions, remove_transaction, drop_hash, retain_ne, enter, new_mempool,
  add_transaction, get_transactions, take_buckets, take_hashes, push_hash,
}
use protonchain.Consensus.Engine.{
  Engine, new_engine, propose_block, build_block, finalize_block, validate_block, has_parent,
  get_block, get_latest_height, is_from_leader, is_signed, transactions_root,
}
use protonchain.Consensus.Engine.Validation.{
  IsAcceptable, validate_block_iff, validate_block_binding,
}
use protonchain.Consensus.Engine.Height.{
  Reach, starts, submits, finalizes, sign, propose_block-height,
}

-- What the tests compute with.
engine_code : Unit {0}
unfolding remove_transactions remove_transaction drop_hash retain_ne HashMap.remove get_block
    get_latest_height HashMap.get HashMap.insert HashMap.contains_key digest le_bytes from_le_bytes
    transaction_hash header_hash zero_hash root climb level node get_validator verify_signature
    get_leader sort_by_address insert_sorted bytes_lt new_mempool add_transaction get_transactions
    take_buckets take_hashes push_hash new_engine propose_block build_block finalize_block
    validate_block has_parent is_from_leader is_signed
engine_code = tt

abbrev tx : ℕ → Transaction
tx nonce = transaction nonce 100

abbrev fresh : Engine
fresh = new_engine default_config four_validators (address 2)

abbrev with_one : Engine
with_one = record fresh { mempool = enter (transaction_hash (tx 0)) (tx 0) (new_mempool 100_000) }

abbrev proposal : Block
proposal = build_block with_one (hash 0) 77 (tx 0 ∷ [])

proposes : propose_block with_one (hash 0) 77 ≡ some proposal
unfolding engine_code
proposes = refl

-- A block of height 0 by validator 1, which leads there.
abbrev genesis : List Transaction → List Transaction → Block
genesis committed txs = record {
  header = record {
    version = 1;
    prev_hash = zero_hash;
    merkle_root = transactions_root committed;
    state_root = zero_hash;
    shard_id = 0;
    height = 0;
    timestamp = 0;
    validator = address 1;
    signature = 1 ∷ [];
    tx_count = length committed;
    gas_used = 0;
    extra_data = [];
  };
  transactions = txs;
  shard_proofs = [];
}

abbrev three : List Transaction
three = tx 0 ∷ tx 1 ∷ tx 2 ∷ []

abbrev four : List Transaction
four = tx 0 ∷ tx 1 ∷ tx 2 ∷ tx 2 ∷ []

genesis_is_accepted : validate_block fresh (genesis three three) ≡ true
unfolding engine_code
genesis_is_accepted = refl

-- The same node after it has finalized that block, and then takes in a transaction.
abbrev after_genesis : Engine
after_genesis = finalize_block fresh (genesis three three)

abbrev pending : Mempool
pending = enter (transaction_hash (tx 3)) (tx 3) after_genesis.mempool

after_genesis-Reach : Reach (record after_genesis { mempool = pending })
unfolding engine_code
after_genesis-Reach =
    submits (tx 3) pending
      (finalizes (genesis three three) (starts default_config four_validators (address 2))) refl

abbrev second : Block
second = build_block (record after_genesis { mempool = pending }) (hash 0) 77 (tx 3 ∷ [])

proposes_second :
    propose_block (record after_genesis { mempool = pending }) (hash 0) 77 ≡ some second
unfolding engine_code
proposes_second = refl

-- The node that has the block of height 0 accepts the proposal, which validator 2 leads and signs.
second_is_accepted : validate_block after_genesis (sign (2 ∷ []) second) ≡ true
unfolding engine_code
second_is_accepted = refl

propose_block-height_example :
    (get_latest_height (record after_genesis { mempool = pending }) ≡ 0)
    × (second.header.height ≡ 1)
    × ((validate_block fresh (sign (2 ∷ []) second) ≡ false)
        ⊎ ((p : Block) × (get_block fresh 0 ≡ some p)))
propose_block-height_example =
    propose_block-height (hash 0) 77 (2 ∷ []) second fresh after_genesis-Reach proposes_second

validate_block_iff_example :
    (validate_block fresh (genesis three three) ≡ true) ↔ IsAcceptable fresh (genesis three three)
validate_block_iff_example = validate_block_iff fresh (genesis three three)

validate_block_binding_example :
    (map transaction_hash three ≡ map transaction_hash three)
    ⊎ Collides (root_inputs (map transaction_hash three)) (root_inputs (map transaction_hash three))
validate_block_binding_example =
    validate_block_binding fresh fresh (genesis three three) (genesis three three)
      genesis_is_accepted genesis_is_accepted refl refl

root_binding_example :
    (map transaction_hash three ≡ map transaction_hash three)
    ⊎ Collides (root_inputs (map transaction_hash three)) (root_inputs (map transaction_hash three))
unfolding engine_code
root_binding_example =
    root_binding (map transaction_hash three) (map transaction_hash three) refl
      (refl, (refl, (refl, tt))) (refl, (refl, (refl, tt))) refl
