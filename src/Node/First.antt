-- ===== src/Node/First.antt =====
-- The first transaction and the blocks that a node from `ProtonNode::new` of src/lib.rs takes.
use protonchain.Base.{
  ◌≡◌, ◌≢◌, ap, ◌∙◌, none, Bool-cases, eqb, arith, ◌==◌, nat_key, inl, inr, ◌⊎◌, ◌&&◌,
}
use protonchain.Base.HashMap
use protonchain.Types.{
  Hash, Hasher, Bincode, Address, Transaction, Block, ChainConfig, transaction_hash, hash_key,
  address_key,
}
use protonchain.Consensus.Validators.{Secp, Shuffle, new_set, get_leader, get_validator}
use protonchain.Consensus.Engine.{
  new_engine, validate_block, has_parent, is_from_leader, is_signed, transactions_root,
}
use protonchain.Multichain.Router.{new_router}
use protonchain.Multichain.Shards.{
  ShardManager, Routed, new_manager, initialize_shards, route_transaction,
}
use protonchain.Multichain.Routing.{route_transaction-initialized, taken_by}
use protonchain.Privacy.Circuit.{PrimeField}
use protonchain.Privacy.Proofs.{Groth16}
use protonchain.Node.{ProtonNode, Surroundings, Submitted, assemble, new_node, submit_transaction}
use protonchain.Node.Submit.{Routed-cases}
use protonchain.Node.Fresh.{Serves, Serves-shards, new_node-assemble}

new_engine-validate_block :
    ⦃h : Hasher⦄ ⦃b : Bincode⦄ ⦃s : Secp⦄ (config : ChainConfig) (me : Address) (block : Block)
    → validate_block (new_engine config new_set me) block ≡ (
        eqb block.header.height 0
        && transactions_root block.transactions == block.header.merkle_root)
unfolding validate_block has_parent is_from_leader is_signed new_engine new_set get_leader
    get_validator HashMap.contains_key HashMap.get
new_engine-validate_block config me block = ground arith

route_transaction-no_shards :
    {S : Type 0} ⦃h : Hasher⦄ ⦃b : Bincode⦄ (address_hash : Address → Hash) (tx : Transaction)
    (manager : ShardManager S)
    → manager.config.shard_count ≡ 0
    → route_transaction address_hash tx manager ≡ Routed.panicked
unfolding route_transaction
route_transaction-no_shards address_hash tx manager e = ground arith

module _ ⦃field : PrimeField⦄ ⦃groth : Groth16⦄ ⦃h : Hasher⦄ ⦃r : Shuffle⦄ ⦃b : Bincode⦄
    {S D C P : Type 0} where
  -- A node from `new` has no validators, so it accepts a block just if its height is 0 and its
  -- Merkle root is right, whoever made it and whatever its signature is.
  pub new_node-validate_block :
      ⦃s : Secp⦄ (config : ChainConfig) (around : Surroundings D C P)
      (address_hash : Address → Hash) (start node : ProtonNode S D C P) (block : Block)
      → new_node config around ≡ inr start
      → Serves address_hash start node
      → validate_block node.consensus block ≡ (
          eqb block.header.height 0
          && transactions_root block.transactions == block.header.merkle_root)
  unfolding assemble
  new_node-validate_block config around address_hash start node block e serves =
      let (db, zk, peer, made) = new_node-assemble config around start e in
      let (same, _) = Serves-shards address_hash start node serves in
      ap (λ n. validate_block n.consensus block) same
      ∙ ap (λ n. validate_block n.consensus block) made
      ∙ new_engine-validate_block config _ block

  -- A node from `new` takes its first transaction, whatever it is, and answers with its hash, unless
  -- no shard is configured: then the call panics.
  pub new_node-submit_transaction :
      (config : ChainConfig) (around : Surroundings D C P) (address_hash : Address → Hash)
      (start : ProtonNode S D C P) (tx : Transaction)
      → new_node config around ≡ inr start
      → ((config.shard_count ≡ 0) × (submit_transaction address_hash tx start ≡ Submitted.panicked))
        ⊎ ((next : ProtonNode S D C P) × (submit_transaction address_hash tx start
              ≡ Submitted.submitted (transaction_hash tx) next))
  unfolding submit_transaction assemble new_manager initialize_shards
  new_node-submit_transaction config around address_hash start tx e =
      let (db, zk, peer, made) = new_node-assemble config around start e in
      let ready : start.shard_manager ≡ initialize_shards new_set (new_manager config new_router) =
        ap (λ n. n.shard_manager) made in
      elim (Bool-cases (eqb config.shard_count 0)) [
        | inl zero_shards ↦ inl (
          ground arith,
          let count : start.shard_manager.config.shard_count ≡ 0 =
                ap (λ m. m.config.shard_count) ready ∙ ground arith in
              ground (arith, route_transaction-no_shards address_hash tx start.shard_manager count),
        )
        | inr some_shards ↦
            let (_, taken) =
              route_transaction-initialized address_hash tx new_set
                (new_manager {S = S} config new_router) (ground arith) in
            let took : taken_by (route_transaction address_hash tx start.shard_manager) ≢ none =
              ground
                (arith, ap (λ m. taken_by (route_transaction address_hash tx m)) ready, taken) in
            elim (Routed-cases (route_transaction address_hash tx start.shard_manager)) [
              | inl (k, manager, e') ↦ inr (record start { shard_manager = manager }, ground arith)
              | inr refused ↦ absurd (took refused)
            ]
      ]
