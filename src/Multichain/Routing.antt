-- ===== src/Multichain/Routing.antt =====
-- Where transactions are routed, and what the counts of the router say.
use protonchain.Base.{
  length, ℕ, ◌+◌, ◌%◌, ◌<◌, ◌≡◌, refl, ◌&&◌, none, some, Option, List, arith, ltb, leb, nat_key,
  zero, suc, if◌then◌else◌,
}
use protonchain.Base.HashMap
use protonchain.Base.HashMap.{HashMap}
use protonchain.Base.HashMap.Sum.{HasDistinctKeys}
use protonchain.Types.{Hash, Hasher, Bincode, Address, Transaction, ChainConfig, hash_key}
use protonchain.Consensus.Engine.{new_engine}
use protonchain.Base.HashMap.Sum.{insert-HasDistinctKeys, length-insert, length-remove}
use protonchain.Consensus.Mempool
use protonchain.Consensus.Validators.{ValidatorSet, Shuffle}
use protonchain.Multichain.Router.{
  CrossChainStatus, router_stats, confirm_tx, CrossChainTransaction, CrossChainRouter,
}
use protonchain.Multichain.Shards.{
  Shard, ShardManager, Routed, new_shard, add_shards, initialize_shards, first_two, enter_shard,
  route_transaction,
}

module _ ⦃h : Hasher⦄ ⦃r : Shuffle⦄ (config : ChainConfig) (set : ValidatorSet) where
  pub get-add_shards :
      (left first k : ℕ) (m : HashMap ℕ Shard)
      → HashMap.get k (add_shards config set left first m) ≡ (
          if leb first k && ltb k (first + left)
          then some (new_shard config set k)
          else HashMap.get k m)
  unfolding add_shards
  get-add_shards zero first k m = ground arith
  get-add_shards (suc left) first k m = ground (
    arith,
    get-add_shards left (suc first) k (HashMap.insert first (new_shard config set first) m),
    HashMap.get-insert first k (new_shard config set first) m,
  )

-- A remainder of the first two bytes names a shard.
mod_lt : (a n : ℕ) → 0 < n → a % n < n
mod_lt a zero pos = omega arith
mod_lt a (suc n) pos = omega arith

-- the shard that took the transaction
abbrev pub taken_by : {S : Type 0} → Routed S → Option ℕ
taken_by (Routed.routed id manager) = some id
taken_by Routed.refused_full = none
taken_by Routed.refused_no_shard = none
taken_by Routed.panicked = none

-- the shard that `route_transaction` is to choose
abbrev pub chosen : (Address → Hash) → ℕ → Transaction → ℕ
chosen address_hash count tx =
    if ltb 0 tx.shard_id && ltb tx.shard_id count
    then tx.shard_id
    else first_two (address_hash tx.from) % count

module _ ⦃h : Hasher⦄ ⦃r : Shuffle⦄ ⦃b : Bincode⦄ {S : Type 0} where
  -- a fresh shard takes a transaction
  enter_shard-new :
      (tx : Transaction) (id : ℕ) (set : ValidatorSet) (manager : ShardManager S)
      → HashMap.get id manager.shards ≡ some (new_shard manager.config set id)
      → taken_by (enter_shard tx id manager) ≡ some id
  unfolding enter_shard new_shard new_engine Mempool.new_mempool Mempool.add_transaction
  enter_shard-new tx id set manager found = rw (found, taken_by) refl

  -- Right after `initialize_shards`, with at least one shard configured, every transaction is
  -- routed: the shard it names takes it if there is one, otherwise the shard that the hash of the
  -- sender selects, and the number of that shard is below the configured count.
  pub route_transaction-initialized :
      (address_hash : Address → Hash) (tx : Transaction) (set : ValidatorSet)
      (manager : ShardManager S)
      → 0 < manager.config.shard_count
      → let id = chosen address_hash manager.config.shard_count tx in
        (id < manager.config.shard_count)
        × (taken_by (route_transaction address_hash tx (initialize_shards set manager)) ≡ some id)
  unfolding route_transaction initialize_shards
  route_transaction-initialized address_hash tx set manager pos =
      let count = manager.config.shard_count in
      let id = chosen address_hash count tx in
      let bound : id < count =
        ground (arith, mod_lt (first_two (address_hash tx.from)) count pos) in
      let ready = initialize_shards set manager in
      let found : HashMap.get id ready.shards ≡ some (new_shard manager.config set id) =
        ground (arith, get-add_shards manager.config set count 0 id manager.shards) in
      (bound, ground (arith, enter_shard-new tx id set ready found))

module _ {S : Type 0} (router : CrossChainRouter S) where
  -- A confirmation takes one entry from the pending count; it adds one to the completed count only
  -- if no transaction with the same timestamp was completed before.
  pub confirm_tx-router_stats :
      (id : Hash) (proof : List ℕ) (entry : CrossChainTransaction)
      → HasDistinctKeys router.pending_txs
      → HashMap.get id router.pending_txs ≡ some entry
      → let before = router_stats router in
        let after = router_stats (confirm_tx id proof router).1 in
        (after.pending_count + 1 ≡ before.pending_count)
        × (after.completed_count ≡ (
            if HashMap.contains_key entry.timestamp router.completed_txs
            then before.completed_count
            else before.completed_count + 1))
  unfolding confirm_tx router_stats HashMap.contains_key
  confirm_tx-router_stats id proof entry distinct found =
      let stored = record entry {
        status = CrossChainStatus.target_confirmed;
        proof = some proof;
      } in
      let pending = HashMap.insert id stored router.pending_txs in
      let shorter =
        length-remove id pending (insert-HasDistinctKeys id stored router.pending_txs distinct) in
      let counts : length (HashMap.remove id pending) + 1 ≡ length router.pending_txs = ground (
        arith,
        found,
        shorter,
        length-insert id stored router.pending_txs,
        HashMap.get-insert_self id stored router.pending_txs,
      ) in
      rw (found, confirm_tx, router_stats)
        (counts, length-insert entry.timestamp id router.completed_txs)
