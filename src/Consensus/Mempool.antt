-- ===== src/Consensus/Mempool.antt =====
-- `Mempool` of src/consensus/mod.rs. The three locks are taken inside each method, so a method is
-- one step on the record. `by_gas_price` is read in its order, so it is kept sorted, highest price
-- first: the order of `iter().rev()`.
mod Tests
pub mod Buckets
pub mod Consistency
pub mod Selection
pub mod Removal
pub mod Repeat
use protonchain.Base.{
  ℕ, Bool, true, false, none, some, List, [], ◌∷◌, ◌++◌, leb, ltb, eqb, ◌==◌, nat_key, pair_key,
  if◌then◌else◌, length,
}
use protonchain.Base.HashMap
use protonchain.Base.HashMap.{HashMap}
use protonchain.Types.{
  Hash, Hasher, Bincode, Address, Transaction, hash_key, address_key, transaction_hash,
}

-- `BTreeMap<u128, Vec<Hash>>`, keys falling
abbrev pub Buckets : Type 0
Buckets = List (ℕ × List Hash)

-- `by_gas.entry(price).or_default().push(hash)`
unfoldable pub push_hash : ℕ → Hash → Buckets → Buckets
push_hash price hash [] = (price, hash ∷ []) ∷ []
push_hash price hash ((p, hs) ∷ rest) =
    if eqb p price
    then (p, hs ++ hash ∷ []) ∷ rest
    else (if ltb p price
        then (price, hash ∷ []) ∷ (p, hs) ∷ rest
        else (p, hs) ∷ push_hash price hash rest)

-- `entry.retain(|h| h != hash)`
unfoldable pub retain_ne : Hash → List Hash → List Hash
retain_ne hash [] = []
retain_ne hash (x ∷ xs) = if x == hash then retain_ne hash xs else x ∷ retain_ne hash xs

-- an entry of the map, dropped if it is empty
keep_bucket : ℕ → List Hash → Buckets → Buckets
keep_bucket p [] rest = rest
keep_bucket p (x ∷ xs) rest = (p, x ∷ xs) ∷ rest

-- `if let Some(entry) = by_gas.get_mut(price) { retain; if entry.is_empty() { remove } }`
unfoldable pub drop_hash : ℕ → Hash → Buckets → Buckets
unfolding keep_bucket retain_ne
drop_hash price hash [] = []
drop_hash price hash ((p, hs) ∷ rest) =
    if eqb p price
    then keep_bucket p (retain_ne hash hs) rest
    else (p, hs) ∷ drop_hash price hash rest

pub record Mempool : Type 0 where
  pub transactions : HashMap Hash Transaction
  pub by_nonce : HashMap (Address × ℕ) Hash
  pub by_gas_price : Buckets
  pub max_size : ℕ

-- `Mempool::new`
unfoldable pub new_mempool : ℕ → Mempool
new_mempool max_size = record {
  transactions = [];
  by_nonce = [];
  by_gas_price = [];
  max_size = max_size;
}

pub data AddResult : Type 0 where
  added : Mempool → AddResult
  mempool_full : AddResult

-- `Mempool::size`
unfoldable pub size : Mempool → ℕ
size pool = length pool.transactions

-- the hashes of one price, until `limit` transactions are found; whether the limit was met
unfoldable pub take_hashes :
    HashMap Hash Transaction → ℕ → List Hash → List Transaction → List Transaction × Bool
take_hashes txs limit [] result = (result, false)
take_hashes txs limit (hash ∷ rest) result = elim (HashMap.get hash txs) [
  | none ↦ take_hashes txs limit rest result
  | some tx ↦
      let more = take_hashes txs limit rest (result ++ tx ∷ []) in
      if leb limit (length (result ++ tx ∷ [])) then (result ++ tx ∷ [], true) else more
]

-- the loop over the prices, highest first
unfoldable pub take_buckets :
    HashMap Hash Transaction → ℕ → ℕ → Buckets → List Transaction → List Transaction
unfolding take_hashes
take_buckets txs limit min_gas_price [] result = result
take_buckets txs limit min_gas_price ((price, hashes) ∷ rest) result =
    let (found, full) = take_hashes txs limit hashes result in
    let more = take_buckets txs limit min_gas_price rest found in
    if ltb price min_gas_price then result else (if full then found else more)

-- `Mempool::get_transactions`
unfoldable pub get_transactions : Mempool → ℕ → ℕ → List Transaction
unfolding take_buckets
get_transactions pool limit min_gas_price =
    take_buckets pool.transactions limit min_gas_price pool.by_gas_price []

-- the three removals for a transaction that is found
abbrev pub forget : Hash → Transaction → Mempool → Mempool
forget hash tx pool = record pool {
  transactions = HashMap.remove hash pool.transactions;
  by_nonce = HashMap.remove (tx.from, tx.nonce) pool.by_nonce;
  by_gas_price = drop_hash tx.gas_price hash pool.by_gas_price;
}

-- one round of the loop of `remove_transactions`
unfoldable pub remove_transaction : Hash → Mempool → Mempool
unfolding drop_hash
remove_transaction hash pool = elim (HashMap.get hash pool.transactions) [
  | none ↦ pool
  | some tx ↦ forget hash tx pool
]

-- `Mempool::remove_transactions`
unfoldable pub remove_transactions : List Hash → Mempool → Mempool
unfolding remove_transaction
remove_transactions [] pool = pool
remove_transactions (hash ∷ rest) pool = remove_transactions rest (remove_transaction hash pool)

-- the three insertions
abbrev pub enter : Hash → Transaction → Mempool → Mempool
enter hash tx pool = record pool {
  transactions = HashMap.insert hash tx pool.transactions;
  by_nonce = HashMap.insert (tx.from, tx.nonce) hash pool.by_nonce;
  by_gas_price = push_hash tx.gas_price hash pool.by_gas_price;
}

module _ ⦃h : Hasher⦄ ⦃b : Bincode⦄ where
  -- `Mempool::add_transaction`
  unfoldable pub add_transaction : Transaction → Mempool → AddResult
  unfolding push_hash
  add_transaction tx pool =
      if leb pool.max_size (length pool.transactions)
      then mempool_full
      else added (enter (transaction_hash tx) tx pool)
