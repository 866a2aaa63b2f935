-- ===== src/Node/Fresh.antt =====
-- A node from `ProtonNode::new` of src/lib.rs, and what its calls make of it.
use protonchain.Base.{
  ℕ, zero, suc, ◌+◌, ◌≤◌, ◌≡◌, refl, ap, ◌∙◌, none, Option-cases, Bool-cases, arith, nat_key, inl,
  inr, length, length-map, [],
}
use protonchain.Base.HashMap
use protonchain.Base.HashMap.{HashMap, get-insert}
use protonchain.Base.HashMap.Sum.{length-insert}
use protonchain.Types.{
  Hash, Hasher, Bincode, Address, Transaction, ChainConfig, hash_key, address_key,
}
use protonchain.Consensus.Mempool
use protonchain.Consensus.Validators.{Shuffle, ValidatorSet, new_set}
use protonchain.Consensus.Engine
use protonchain.Consensus.Engine.{
  Engine, new_engine, propose_block, validate_block, transactions_root,
}
use protonchain.Vm
use protonchain.Multichain.Shards.{
  info_of, Shard, ShardManager, new_manager, initialize_shards, new_shard, add_shards,
  get_all_shard_stats,
}
use protonchain.Network.Peers
use protonchain.Privacy.Circuit.{PrimeField}
use protonchain.Privacy.Proofs.{Groth16, ZkProtonSystem, new_system, setup}
use protonchain.Node.{
  ProtonNode, Surroundings, Submitted, assemble, new_node, submit_transaction, get_balance,
  get_block, get_stats,
}
use protonchain.Node.Submit.{submit_transaction-IsEntered}

module _ ⦃h : Hasher⦄ ⦃r : Shuffle⦄ (config : ChainConfig) (set : ValidatorSet) where
  -- New shards have new numbers.
  length-add_shards :
      (left first : ℕ) (m : HashMap ℕ Shard)
      → ((k : ℕ) → first ≤ k → HashMap.get k m ≡ none)
      → length (add_shards config set left first m) ≡ length m + left
  unfolding add_shards HashMap.contains_key
  length-add_shards zero first m above = omega arith
  length-add_shards (suc left) first m above =
      let more = HashMap.insert first (new_shard config set first) m in
      let one : length more ≡ length m + 1 =
        ground (arith, length-insert first (new_shard config set first) m, above first) in
      omega (
        arith,
        length-add_shards left (suc first) more
            (λ k le. ground (arith, get-insert first k (new_shard config set first) m, above k)),
      )

module _ ⦃field : PrimeField⦄ ⦃groth : Groth16⦄ ⦃h : Hasher⦄ ⦃r : Shuffle⦄ ⦃b : Bincode⦄
    {S D C P : Type 0} where
  -- A node that has taken transactions, one after another.
  pub data Serves (address_hash : Address → Hash) (start : ProtonNode S D C P)
      : ProtonNode S D C P → Type 0 where
    started : Serves address_hash start start
    took :
        (tx : Transaction) (hash : Hash) (node next : ProtonNode S D C P)
        → Serves address_hash start node
        → submit_transaction address_hash tx node ≡ Submitted.submitted hash next
        → Serves address_hash start next

  pub new_node-assemble :
      (config : ChainConfig) (around : Surroundings D C P) (start : ProtonNode S D C P)
      → new_node config around ≡ inr start
      → (db : D) × (zk : ZkProtonSystem) × (peer : P) × (start
          ≡ assemble config db around.cache zk peer)
  unfolding new_node
  new_node-assemble config around start e = elim (Bool-cases around.runtime) [
    | inr none_there ↦ absurd (ground arith)
    | inl running ↦ elim (Option-cases around.database) [
      | inl none_there ↦ absurd (ground arith)
      | inr (db, opened) ↦ elim (Option-cases (setup new_system).0) [
        | inr (error, failed) ↦ absurd (ground arith)
        | inl set_up ↦ elim (Bool-cases around.key) [
          | inr bad ↦ absurd (ground arith)
          | inl good ↦ elim (Option-cases around.peer) [
            | inl none_there ↦ absurd (ground arith)
            | inr (peer, connected) ↦ (db, (setup new_system).1, peer, ground arith)
          ]
        ]
      ]
    ]
  ]

  -- Submissions change the shards only, and not their number.
  pub Serves-shards :
      (address_hash : Address → Hash) (start node : ProtonNode S D C P)
      → Serves address_hash start node
      → (node ≡ record start { shard_manager = node.shard_manager })
        × (length node.shard_manager.shards ≡ length start.shard_manager.shards)
  Serves-shards address_hash start _ started = (refl, refl)
  Serves-shards address_hash start _ (took tx hash node next before e) =
      let (same, size) = Serves-shards address_hash start node before in
      let (_, entered, rest) = submit_transaction-IsEntered address_hash tx hash node next e in
      (
        rest
            ∙ ap {A = ProtonNode S D C P} (λ n. record n { shard_manager = next.shard_manager })
                same,
        entered.size ∙ size,
      )

  -- what the parts of a node answer that no submission changes
  record IsIdle (node : ProtonNode S D C P) : Type 0 where
    proposes : (prev : Hash) (timestamp : ℕ) → propose_block node.consensus prev timestamp ≡ none
    blocks : (height : ℕ) → get_block height node ≡ none
    balances : (address : Address) → get_balance address node ≡ 0
    height : (get_stats node).height ≡ 0
    pool : (get_stats node).mempool_size ≡ 0
    peers : (get_stats node).peer_count ≡ 0

  assemble-IsIdle :
      (config : ChainConfig) (db : D) (cache : ℕ → C) (zk : ZkProtonSystem) (peer : P)
      → IsIdle (assemble {S = S} config db cache zk peer)
  unfolding assemble propose_block get_block get_balance get_stats Engine.get_block Engine.get_stats
      Mempool.size Mempool.get_transactions new_engine Mempool.new_mempool Peers.peer_count
      Vm.get_account HashMap.get
  assemble-IsIdle config db cache zk peer = record {
    proposes = λ prev timestamp. refl;
    blocks = λ height. refl;
    balances = λ address. refl;
    height = refl;
    pool = refl;
    peers = refl;
  }

  IsIdle-shards :
      (start : ProtonNode S D C P) (manager : ShardManager S)
      → IsIdle start
      → IsIdle (record start { shard_manager = manager })
  unfolding get_block get_balance get_stats
  IsIdle-shards start manager i = record {
    proposes = i.proposes;
    blocks = i.blocks;
    balances = i.balances;
    height = i.height;
    pool = i.pool;
    peers = i.peers;
  }

  assemble-shards :
      (config : ChainConfig) (db : D) (cache : ℕ → C) (zk : ZkProtonSystem) (peer : P)
      (start : ProtonNode S D C P)
      → start ≡ assemble config db cache zk peer
      → length start.shard_manager.shards ≡ config.shard_count
  unfolding assemble initialize_shards new_manager HashMap.get
  assemble-shards config db cache zk peer start made =
      ap (λ n. length n.shard_manager.shards) made
      ∙ omega (arith, length-add_shards config new_set config.shard_count 0 [] (λ k le. refl))

  -- However many transactions a node from `new` has taken, its own consensus has none of them: it
  -- proposes no block, has no block, no balance and no peer, and counts an empty mempool at height 0,
  -- with as many shards as were configured.
  pub new_node-Serves :
      (config : ChainConfig) (around : Surroundings D C P) (address_hash : Address → Hash)
      (start node : ProtonNode S D C P) (prev : Hash) (address : Address) (timestamp height : ℕ)
      → new_node config around ≡ inr start
      → Serves address_hash start node
      → (propose_block node.consensus prev timestamp ≡ none)
        × (get_block height node ≡ none)
        × (get_balance address node ≡ 0)
        × (get_stats node ≡ record {
          height = 0;
          mempool_size = 0;
          shard_count = config.shard_count;
          peer_count = 0;
        })
  unfolding get_stats get_all_shard_stats
  new_node-Serves config around address_hash start node prev address timestamp height e serves =
      let (db, zk, peer, made) = new_node-assemble config around start e in
      let (same, size) = Serves-shards address_hash start node serves in
      let idle : IsIdle start = rw made (assemble-IsIdle config db around.cache zk peer) in
      let i : IsIdle node = rw same (IsIdle-shards start node.shard_manager idle) in
      let count : length node.shard_manager.shards ≡ config.shard_count =
        size ∙ assemble-shards config db around.cache zk peer start made in
      (
        i.proposes prev timestamp,
        i.blocks height,
        i.balances address,
        ground (
          arith,
          i.height,
          i.pool,
          i.peers,
          count,
          length-map (λ e. info_of e.0 e.1) node.shard_manager.shards,
        ),
      )
