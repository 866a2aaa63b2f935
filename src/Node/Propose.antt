-- ===== src/Node/Propose.antt =====
-- A transaction from `submit_transaction` of src/lib.rs to a proposal of its shard's consensus.
use protonchain.Base.{
  ℕ, ◌≤◌, ◌<◌, ◌≡◌, refl, ap, ◌∙◌, subst, some, false, ltb, arith, nat_key, inl, inr, [], ◌∷◌,
  ==_refl,
}
use protonchain.Base.HashMap
use protonchain.Types.{
  Hash, Hasher, Bincode, Address, Transaction, Block, ChainConfig, transaction_hash, digest,
  hash_key, address_key,
}
use protonchain.Consensus.Mempool
use protonchain.Consensus.Validators.{Shuffle, new_set}
use protonchain.Consensus.Engine.{new_engine, propose_block, build_block}
use protonchain.Multichain.Router.{new_router}
use protonchain.Multichain.Shards.{Shard, new_manager, new_shard, initialize_shards}
use protonchain.Multichain.Routing.{chosen, get-add_shards, route_transaction-initialized}
use protonchain.Privacy.Circuit.{PrimeField}
use protonchain.Privacy.Proofs.{Groth16}
use protonchain.Node.{ProtonNode, Surroundings, Submitted, assemble, new_node, submit_transaction}
use protonchain.Node.Submit.{IsEntered, with_tx, submit_transaction-IsEntered}
use protonchain.Node.Fresh.{new_node-assemble}
use protonchain.Node.First.{new_node-submit_transaction}

module _ ⦃h : Hasher⦄ ⦃r : Shuffle⦄ ⦃b : Bincode⦄ where
  one_selected :
      (config : ChainConfig) (id : ℕ) (tx : Transaction)
      → config.min_gas_price ≤ tx.gas_price
      → Mempool.get_transactions
          (with_tx tx (new_shard config new_set id)).config.consensus.mempool
          1000
          config.min_gas_price
        ≡ tx ∷ []
  unfolding new_shard new_engine Mempool.new_mempool Mempool.get_transactions HashMap.get
      HashMap.insert Mempool.push_hash Mempool.take_buckets Mempool.take_hashes transaction_hash
      digest
  one_selected config id tx enough =
      let paid : ltb tx.gas_price config.min_gas_price ≡ false = ground arith in
      rw (paid, ==_refl (transaction_hash tx)) refl

  -- A new shard with one transaction proposes it.
  new_shard-propose_block :
      (config : ChainConfig) (id : ℕ) (tx : Transaction) (prev : Hash) (timestamp : ℕ)
      → config.min_gas_price ≤ tx.gas_price
      → let engine = (with_tx tx (new_shard config new_set id)).config.consensus in
        propose_block engine prev timestamp ≡ some (build_block engine prev timestamp (tx ∷ []))
  unfolding propose_block new_shard new_engine
  new_shard-propose_block config id tx prev timestamp enough =
      rw (one_selected config id tx enough) refl

module _ ⦃field : PrimeField⦄ ⦃groth : Groth16⦄ ⦃h : Hasher⦄ ⦃r : Shuffle⦄ ⦃b : Bincode⦄
    {S D C P : Type 0} where
  -- The first transaction that a node from `new` takes reaches a proposal, if at least one shard is
  -- configured and its gas price is not below the minimum: the consensus of the shard that took it
  -- proposes a block of height 1 with this transaction alone.
  pub submit_transaction-propose_block :
      (config : ChainConfig) (around : Surroundings D C P) (address_hash : Address → Hash)
      (start : ProtonNode S D C P) (tx : Transaction) (prev : Hash) (timestamp : ℕ)
      → new_node config around ≡ inr start
      → 0 < config.shard_count
      → config.min_gas_price ≤ tx.gas_price
      → (next : ProtonNode S D C P) × (shard : Shard) × (block : Block) × (submit_transaction
            address_hash tx start
          ≡ Submitted.submitted (transaction_hash tx) next)
        × (HashMap.get (chosen address_hash config.shard_count tx) next.shard_manager.shards
            ≡ some shard)
        × (propose_block shard.config.consensus prev timestamp ≡ some block)
        × (block.header.height ≡ 1)
        × (block.transactions ≡ tx ∷ [])
  unfolding build_block assemble initialize_shards new_manager new_shard new_engine
  submit_transaction-propose_block config around address_hash start tx prev timestamp e pos enough =
      elim (new_node-submit_transaction config around address_hash start tx e) [
        | inl (no_shards, _) ↦ absurd (omega (arith, no_shards))
        | inr (next, took) ↦
            let (db, zk, peer, made) = new_node-assemble config around start e in
            let (_, entered, _) =
              submit_transaction-IsEntered address_hash tx (transaction_hash tx) start next took in
            let ready : start.shard_manager
                ≡ initialize_shards new_set (new_manager config new_router) =
              ap (λ n. n.shard_manager) made in
            let count : start.shard_manager.config.shard_count ≡ config.shard_count =
              ap (λ m. m.config.shard_count) ready in
            let id = chosen address_hash config.shard_count tx in
            let ent : IsEntered tx id start.shard_manager next.shard_manager =
              subst
                (λ n.
                  IsEntered tx (chosen address_hash n tx) start.shard_manager next.shard_manager)
                count entered in
            let bound : id < config.shard_count =
              (route_transaction-initialized address_hash tx new_set
                (new_manager {S = S} config new_router) pos).0 in
            let first : HashMap.get id start.shard_manager.shards
                ≡ some (new_shard config new_set id) =
              ap (λ m. HashMap.get id m.shards) ready
              ∙ ground (arith, get-add_shards config new_set config.shard_count 0 id []) in
            let fresh : ent.old ≡ new_shard config new_set id = ground (arith, ent.there, first) in
            let now : ent.shard ≡ with_tx tx (new_shard config new_set id) =
              ent.entered ∙ ap (with_tx tx) fresh in
            (
              next,
              ent.shard,
              build_block (with_tx tx (new_shard config new_set id)).config.consensus prev timestamp
                  (tx ∷ []),
              took,
              ent.found,
              ap (λ s. propose_block s.config.consensus prev timestamp) now
                  ∙ new_shard-propose_block config id tx prev timestamp enough,
              refl,
              refl,
            )
      ]
