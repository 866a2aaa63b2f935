-- ===== src/Storage/State.antt =====
-- `StateStorage`, `StateSnapshot` and `StatePruner` of src/storage/mod.rs. A method that returns
-- `Result` says first whether it was `Ok`. The database, the cache and bincode are parameters.
pub mod Durable
pub mod Cached
mod Tests
use protonchain.Base.{
  ℕ, ◌+◌, ◌-◌, Bool, true, false, Option, none, some, List, [], ◌∷◌, ◌++◌, take, drop,
}
use protonchain.Types.{
  Hash, Hasher, Bincode, Address, Account, Transaction, Block, digest, transaction_hash,
}
use protonchain.Storage.Interface.{Batch, Database, LruCache, Codec}
use protonchain.Storage.Keys.{account_key, block_key, tx_key, contract_key, storage_key}

pub record StateStorage (D C : Type 0) : Type 0 where
  pub db : D
  pub cache : C
  pub pending_changes : Batch

-- `db.get(&key)`, then `bincode::deserialize`
abbrev pub decoded : {A : Type 0} ⦃codec : Codec A⦄ → Option (List ℕ) → Option A
decoded none = none
decoded ⦃codec⦄ (some bytes) = codec.deserialize bytes

-- the bytes of the changes that `state_root` hashes; a deletion has its key only
unfoldable pub change_bytes : Batch → List ℕ
change_bytes [] = []
change_bytes ((key, none) ∷ changes) = key ++ change_bytes changes
change_bytes ((key, some value) ∷ changes) = key ++ value ++ change_bytes changes

pub record StateSnapshot : Type 0 where
  pub block_height : ℕ
  pub state_root : Hash
  pub accounts : List (Address × Account)
  pub timestamp : ℕ

-- the loop of `StateSnapshot::create`, over the entries that the iterator lists
unfoldable pub listed_accounts :
    ⦃codec : Codec Account⦄ → List (List ℕ × List ℕ) → List (Address × Account)
listed_accounts [] = []
listed_accounts ⦃codec⦄ ((key, value) ∷ rest) = elim (codec.deserialize value) [
  | none ↦ listed_accounts rest
  | some account ↦ (record { bytes = take 20 (drop 4 key) }, account) ∷ listed_accounts rest
]

-- `StatePruner::prune_old_blocks` for a pruner that keeps `keep_blocks`: it counts and deletes nothing
unfoldable pub prune_old_blocks : ℕ → ℕ → ℕ
prune_old_blocks keep_blocks current_height = current_height - keep_blocks

module _ {D C : Type 0} ⦃database : Database D⦄ ⦃lru : LruCache C⦄ where
  -- `push` on the pending changes
  unfoldable pub push_change : List ℕ → List ℕ → StateStorage D C → StateStorage D C
  push_change key value s = record s {
    pending_changes = s.pending_changes ++ (key, some value) ∷ [];
  }

  -- `get_contract_code` and `put_contract_code`
  unfoldable pub get_contract_code : Address → StateStorage D C → Option (List ℕ)
  get_contract_code address s = database.get (contract_key address) s.db

  unfoldable pub put_contract_code : Address → List ℕ → StateStorage D C → StateStorage D C
  unfolding push_change
  put_contract_code address code s = push_change (contract_key address) code s

  -- `get_storage` and `put_storage`
  unfoldable pub get_storage : Address → Hash → StateStorage D C → Option (List ℕ)
  get_storage address key s = database.get (storage_key address key) s.db

  unfoldable pub put_storage : Address → Hash → List ℕ → StateStorage D C → StateStorage D C
  unfolding push_change
  put_storage address key value s = push_change (storage_key address key) value s

  -- the write of `commit`, after the pending changes were taken
  write_batch : Batch → StateStorage D C → Bool × StateStorage D C
  write_batch [] s = (true, s)
  write_batch (change ∷ changes) s =
      let (ok, db) = database.batch_write (change ∷ changes) s.db in
      (ok, record s { db = db; pending_changes = [] })

  -- `commit`
  unfoldable pub commit : StateStorage D C → Bool × StateStorage D C
  unfolding write_batch
  commit s = write_batch s.pending_changes s

  -- `rollback`
  unfoldable pub rollback : StateStorage D C → StateStorage D C
  rollback s = record s { pending_changes = [] }

  -- `state_root`
  unfoldable pub state_root : ⦃h : Hasher⦄ → StateStorage D C → Hash
  unfolding change_bytes
  state_root s = digest (change_bytes s.pending_changes)

  module _ ⦃codec : Codec Block⦄ where
    -- `get_block` and `put_block`
    unfoldable pub get_block : ℕ → StateStorage D C → Option Block
    get_block height s = decoded (database.get (block_key height) s.db)

    unfoldable pub put_block : Block → StateStorage D C → Bool × StateStorage D C
    unfolding push_change
    put_block block s = elim (codec.serialize block) [
      | none ↦ (false, s)
      | some value ↦ (true, push_change (block_key block.header.height) value s)
    ]

  module _ ⦃codec : Codec Transaction⦄ where
    -- `get_transaction` and `put_transaction`
    unfoldable pub get_transaction : Hash → StateStorage D C → Option Transaction
    get_transaction hash s = decoded (database.get (tx_key hash) s.db)

    unfoldable pub put_transaction :
        ⦃h : Hasher⦄ ⦃b : Bincode⦄ → Transaction → StateStorage D C → Bool × StateStorage D C
    unfolding push_change
    put_transaction tx s = elim (codec.serialize tx) [
      | none ↦ (false, s)
      | some value ↦ (true, push_change (tx_key (transaction_hash tx)) value s)
    ]

  module _ ⦃h : Hasher⦄ ⦃codec : Codec Account⦄ where
    -- what `get_account` finds in the database, which it then enters into the cache
    unfoldable pub load_account : Address → StateStorage D C → Option Account × StateStorage D C
    load_account address s = elim (decoded (database.get (account_key address) s.db)) [
      | none ↦ (none, s)
      | some account ↦
          (some account, record s { cache = lru.put (digest address.bytes) account s.cache })
    ]

    -- `get_account`
    unfoldable pub get_account : Address → StateStorage D C → Option Account × StateStorage D C
    unfolding load_account
    get_account address s =
        let (hit, cache) = lru.get (digest address.bytes) s.cache in
        elim hit [
          | some account ↦ (some account, record s { cache = cache })
          | none ↦ load_account address (record s { cache = cache })
        ]

    -- `put_account`
    unfoldable pub put_account : Address → Account → StateStorage D C → Bool × StateStorage D C
    unfolding push_change
    put_account address account s = elim (codec.serialize account) [
      | none ↦ (false, s)
      | some value ↦ (
        true,
        push_change (account_key address) value
            (record s { cache = lru.put (digest address.bytes) account s.cache }),
      )
    ]

    -- `StateSnapshot::create`
    unfoldable pub create_snapshot : ℕ → ℕ → StateStorage D C → StateSnapshot
    unfolding listed_accounts state_root
    create_snapshot block_height timestamp s = record {
      block_height = block_height;
      state_root = state_root s;
      accounts = listed_accounts (database.iterator (b'a' ∷ b'c' ∷ b'c' ∷ b':' ∷ []) s.db);
      timestamp = timestamp;
    }

    -- the loop of `StateSnapshot::apply`; the `?` leaves it at the first error
    unfoldable pub put_accounts :
        List (Address × Account) → StateStorage D C → Bool × StateStorage D C
    put_accounts [] s = (true, s)
    put_accounts ((address, account) ∷ rest) s =
        let (ok, s') = put_account address account s in
        elim ok [ false ↦ (false, s') | true ↦ put_accounts rest s' ]

    -- `StateSnapshot::apply`
    unfoldable pub apply_snapshot : StateSnapshot → StateStorage D C → Bool × StateStorage D C
    unfolding put_accounts
    apply_snapshot snapshot s =
        let (ok, s') = put_accounts snapshot.accounts s in
        elim ok [ false ↦ (false, s') | true ↦ commit s' ]
