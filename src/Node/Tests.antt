-- ===== src/Node/Tests.antt =====
-- A node on concrete values.
use protonchain.Base.{arith, nat_key, [], ◌∷◌, none, eqb, ◌&&◌, ◌==◌, ℕ, ◌≡◌, refl, some, inr}
use protonchain.Base.HashMap
use protonchain.Types.{
  Transaction, Block, ChainConfig, transaction_hash, from_le_bytes, default_config, zero_hash,
  hash_key,
}
use protonchain.Fixtures.{
  trusting, around, low_hasher, short_bincode, echo_secp, numbers, unshuffled, address, transaction,
}
use protonchain.Consensus.Mempool
use protonchain.Consensus.Engine.{propose_block, build_block, validate_block, transactions_root}
use protonchain.Multichain.Shards
use protonchain.Multichain.Routing.{chosen}
use protonchain.Privacy.Proofs.{ZkProtonSystem}
use protonchain.Node.{
  ProtonNode, Submitted, assemble, new_node, submit_transaction, get_balance, get_block, get_stats,
}
use protonchain.Node.Submit.{IsEntered, submit_transaction-IsEntered}
use protonchain.Node.Fresh.{Serves, took, started, new_node-Serves}
use protonchain.Node.Propose.{submit_transaction-propose_block}
use protonchain.Multichain.Shards.{Shard}
use protonchain.Node.First.{new_node-validate_block}

abbrev ready : ZkProtonSystem
ready = record {
  proving_key = some 1;
  verifying_key = some 2;
  proof_count = 0;
  verification_count = 0;
}

abbrev three_shards : ChainConfig
three_shards = record default_config { shard_count = 3 }

abbrev start : ProtonNode ℕ ℕ ℕ ℕ
start = assemble three_shards 0 (λ size. size) ready 9

started_with : new_node three_shards around ≡ inr start
unfolding new_node
started_with = refl

abbrev payment : Transaction
payment = transaction 0 5

-- the node after the payment
abbrev after : ProtonNode ℕ ℕ ℕ ℕ
after = elim (submit_transaction (λ a. zero_hash) payment start) [
  | Submitted.submitted _ next ↦ next
  | _ ↦ start
]

submitted_payment :
    submit_transaction (λ a. zero_hash) payment start
    ≡ Submitted.submitted (transaction_hash payment) after
unfolding submit_transaction assemble Shards.new_manager HashMap.get HashMap.insert Shards.first_two
    zero_hash Mempool.add_transaction transaction_hash from_le_bytes Shards.new_shard
submitted_payment = refl

submit_transaction-IsEntered_example :
    (transaction_hash payment ≡ transaction_hash payment)
    × IsEntered payment (chosen (λ a. zero_hash) 3 payment) start.shard_manager after.shard_manager
    × (after ≡ record start { shard_manager = after.shard_manager })
unfolding assemble Shards.new_manager
submit_transaction-IsEntered_example =
    submit_transaction-IsEntered (λ a. zero_hash) payment (transaction_hash payment) start after
      submitted_payment

served : Serves (λ a. zero_hash) start after
served = took payment (transaction_hash payment) start after started submitted_payment

new_node-Serves_example :
    (propose_block after.consensus zero_hash 7 ≡ none)
    × (get_block 0 after ≡ none)
    × (get_balance (address 1) after ≡ 0)
    × (get_stats after ≡ record { height = 0; mempool_size = 0; shard_count = 3; peer_count = 0 })
new_node-Serves_example =
    new_node-Serves three_shards around (λ a. zero_hash) start after zero_hash (address 1) 7 0
      started_with served

-- a block of nobody, without a signature
abbrev stray : Block
stray = record (build_block after.consensus zero_hash 7 (payment ∷ [])) {
  header = record ((build_block after.consensus zero_hash 7 (payment ∷ [])).header) { height = 0 };
}

new_node-validate_block_example : validate_block after.consensus stray ≡ (
    eqb stray.header.height 0 && transactions_root stray.transactions == stray.header.merkle_root)
new_node-validate_block_example =
    new_node-validate_block three_shards around (λ a. zero_hash) start after stray started_with
      served

submit_transaction-propose_block_example :
    (next : ProtonNode ℕ ℕ ℕ ℕ) × (shard : Shard) × (block : Block) × (submit_transaction
        (λ a. zero_hash)
        payment
        start
      ≡ Submitted.submitted (transaction_hash payment) next)
    × (HashMap.get (chosen (λ a. zero_hash) 3 payment) next.shard_manager.shards ≡ some shard)
    × (propose_block shard.config.consensus zero_hash 7 ≡ some block)
    × (block.header.height ≡ 1)
    × (block.transactions ≡ payment ∷ [])
submit_transaction-propose_block_example =
    submit_transaction-propose_block three_shards around (λ a. zero_hash) start payment zero_hash 7
      started_with (omega arith) (omega arith)
