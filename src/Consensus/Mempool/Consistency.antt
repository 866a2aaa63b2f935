-- ===== src/Consensus/Mempool/Consistency.antt =====
-- The three tables of the mempool against one another, and its capacity.
use protonchain.Base.{
  if◌then◌else◌, same_pair_iff, nat_key, pair_key, ℕ, ◌<◌, ◌≡◌, ◌⊎◌, inl, inr, true, none, some,
  List, [], ◌∷◌, arith, ◌==◌, Bool-cases, Option-cases, subst,
}
use protonchain.Base.HashMap
use protonchain.Base.HashMap.{HashMap}
use protonchain.Types.{
  Address, address_key, Hash, Hasher, Bincode, Transaction, hash_key, same_hash_iff,
  transaction_hash,
}
use protonchain.Consensus.Mempool.{
  Mempool, Buckets, enter, forget, added, new_mempool, size, push_hash, drop_hash, add_transaction,
  remove_transaction, remove_transactions,
}
use protonchain.Consensus.Mempool.Removal.{get-remove_transactions}
use protonchain.Consensus.Mempool.Buckets.{
  elem, listed, IsFalling, listed-push_hash, push_hash-IsFalling, listed-drop_hash,
  drop_hash-IsFalling,
}

-- The price buckets hold exactly the hashes of the stored transactions, each under the price of
-- its transaction, though perhaps more than once, and the prices fall strictly. A sender and a
-- nonce under which `by_nonce` has a hash are those of the transaction stored under that hash.
pub record IsConsistent (pool : Mempool) : Type 0 where
  pub falling : IsFalling pool.by_gas_price
  pub indexed :
      (hash : Hash) (tx : Transaction)
      → HashMap.get hash pool.transactions ≡ some tx
      → listed hash tx.gas_price pool.by_gas_price ≡ true
  pub stored :
      (hash : Hash) (price : ℕ)
      → listed hash price pool.by_gas_price ≡ true
      → (tx : Transaction) × (HashMap.get hash pool.transactions ≡ some tx) × (tx.gas_price ≡ price)
  pub owned :
      (key : Address × ℕ) (hash : Hash)
      → HashMap.get key pool.by_nonce ≡ some hash
      → (tx : Transaction) × (HashMap.get hash pool.transactions ≡ some tx)
        × ((tx.from, tx.nonce) ≡ key)

pub new_mempool-IsConsistent : (max : ℕ) → IsConsistent (new_mempool max)
unfolding new_mempool HashMap.get
new_mempool-IsConsistent max = record {
  falling = tt;
  indexed = λ hash tx e. cc;
  stored = λ hash price e. cc;
  owned = λ key hash e. cc;
}

-- The part of the invariant that an insertion keeps, with the table and the buckets as variables.
module _ (hash : Hash) (tx : Transaction) (txs : HashMap Hash Transaction) (b : Buckets) where
  insert_indexed :
      ((g : Hash) (t : Transaction) → HashMap.get g txs ≡ some t → listed g t.gas_price b ≡ true)
      → (g : Hash) (t : Transaction) → HashMap.get g (HashMap.insert hash tx txs) ≡ some t
      → listed g t.gas_price (push_hash tx.gas_price hash b) ≡ true
  insert_indexed old g t e = ground (
    arith,
    HashMap.get-insert hash g tx txs,
    listed-push_hash g hash t.gas_price tx.gas_price b,
    same_hash_iff hash g,
    old g t,
  )

  -- A hash that is listed at a price, and is the new one or an old one, has the new price or the
  -- price of its old transaction.
  insert_price :
      ((g : Hash) (p : ℕ)
        → listed g p b ≡ true
        → (t : Transaction) × (HashMap.get g txs ≡ some t) × (t.gas_price ≡ p))
      → (HashMap.get hash txs ≡ none) ⊎ (HashMap.get hash txs ≡ some tx)
      → (p : ℕ) → listed hash p (push_hash tx.gas_price hash b) ≡ true
      → tx.gas_price ≡ p
  insert_price old fresh p e = elim (Bool-cases (listed hash p b)) [
    | inl was ↦ let (t, found, price) = old hash p was in ground arith
    | inr new ↦ ground (arith, listed-push_hash hash hash p tx.gas_price b)
  ]

  insert_stored :
      ((g : Hash) (p : ℕ)
        → listed g p b ≡ true
        → (t : Transaction) × (HashMap.get g txs ≡ some t) × (t.gas_price ≡ p))
      → (HashMap.get hash txs ≡ none) ⊎ (HashMap.get hash txs ≡ some tx)
      → (g : Hash) (p : ℕ) → listed g p (push_hash tx.gas_price hash b) ≡ true
      → (t : Transaction) × (HashMap.get g (HashMap.insert hash tx txs) ≡ some t)
        × (t.gas_price ≡ p)
  insert_stored old fresh g p e = elim (Bool-cases (hash == g)) [
    | inl same ↦
        let eq = (same_hash_iff hash g).0 same in
        (
          tx,
          ground (arith, HashMap.get-insert hash g tx txs),
          insert_price old fresh p (rw (← eq) at e),
        )
    | inr other ↦
        let (t, found, price) =
          old g p (ground (arith, listed-push_hash g hash p tx.gas_price b)) in
        (t, ground (arith, HashMap.get-insert hash g tx txs), price)
  ]

  remove_indexed :
      IsFalling b
      → ((g : Hash) (t : Transaction) → HashMap.get g txs ≡ some t → listed g t.gas_price b ≡ true)
      → (g : Hash) (t : Transaction) → HashMap.get g (HashMap.remove hash txs) ≡ some t
      → listed g t.gas_price (drop_hash tx.gas_price hash b) ≡ true
  remove_indexed s old g t e = ground (
    arith,
    HashMap.get-remove hash g txs,
    listed-drop_hash g hash t.gas_price tx.gas_price b,
    old g t,
  )

  remove_stored :
      IsFalling b
      → ((g : Hash) (p : ℕ)
          → listed g p b ≡ true
          → (t : Transaction) × (HashMap.get g txs ≡ some t) × (t.gas_price ≡ p))
      → HashMap.get hash txs ≡ some tx
      → (g : Hash) (p : ℕ) → listed g p (drop_hash tx.gas_price hash b) ≡ true
      → (t : Transaction) × (HashMap.get g (HashMap.remove hash txs) ≡ some t) × (t.gas_price ≡ p)
  remove_stored s old here g p e =
      let drops = listed-drop_hash g hash p tx.gas_price b s in
      let (t, found, price) = old g p (ground (arith, drops)) in
      (t, ground (arith, HashMap.get-remove hash g txs, same_hash_iff hash g, drops), price)

-- The same for `by_nonce`.
module _ (hash : Hash) (tx : Transaction) (txs : HashMap Hash Transaction) where
  insert_owned :
      (n : HashMap (Address × ℕ) Hash)
      → ((k : Address × ℕ) (g : Hash)
          → HashMap.get k n ≡ some g
          → (t : Transaction) × (HashMap.get g txs ≡ some t) × ((t.from, t.nonce) ≡ k))
      → (HashMap.get hash txs ≡ none) ⊎ (HashMap.get hash txs ≡ some tx)
      → (k : Address × ℕ) (g : Hash)
      → HashMap.get k (HashMap.insert (tx.from, tx.nonce) hash n) ≡ some g
      → (t : Transaction) × (HashMap.get g (HashMap.insert hash tx txs) ≡ some t)
        × ((t.from, t.nonce) ≡ k)
  insert_owned n old fresh k g e =
      let added_key = HashMap.get-insert (tx.from, tx.nonce) k hash n in
      elim (Bool-cases ((tx.from, tx.nonce) == k)) [
        | inl same ↦ (
          tx,
          ground (arith, added_key, HashMap.get-insert_self hash tx txs),
          (same_pair_iff (tx.from, tx.nonce) k).0 same,
        )
        | inr other ↦
            let (t, found, key) = old k g (ground (arith, added_key)) in
            elim (Bool-cases (hash == g)) [
              | inl same ↦
                  (t, ground (arith, HashMap.get-insert hash g tx txs, same_hash_iff hash g), key)
              | inr different ↦ (t, ground (arith, HashMap.get-insert hash g tx txs), key)
            ]
      ]

  remove_owned :
      (n : HashMap (Address × ℕ) Hash)
      → ((k : Address × ℕ) (g : Hash)
          → HashMap.get k n ≡ some g
          → (t : Transaction) × (HashMap.get g txs ≡ some t) × ((t.from, t.nonce) ≡ k))
      → HashMap.get hash txs ≡ some tx
      → (k : Address × ℕ) (g : Hash) → HashMap.get k (HashMap.remove (tx.from, tx.nonce) n) ≡ some g
      → (t : Transaction) × (HashMap.get g (HashMap.remove hash txs) ≡ some t)
        × ((t.from, t.nonce) ≡ k)
  remove_owned n old here k g e =
      let removed_key = HashMap.get-remove (tx.from, tx.nonce) k n in
      let (t, found, key) = old k g (ground (arith, removed_key)) in
      (
        t,
        ground (
          arith,
          removed_key,
          same_pair_iff (tx.from, tx.nonce) k,
          HashMap.get-remove hash g txs,
          same_hash_iff hash g,
        ),
        key,
      )

enter-IsConsistent :
    (hash : Hash) (tx : Transaction) (pool : Mempool)
    → IsConsistent pool
    → (HashMap.get hash pool.transactions ≡ none) ⊎ (HashMap.get hash pool.transactions ≡ some tx)
    → IsConsistent (enter hash tx pool)
enter-IsConsistent hash tx pool c fresh = record {
  falling = push_hash-IsFalling tx.gas_price hash pool.by_gas_price c.falling;
  indexed = insert_indexed hash tx pool.transactions pool.by_gas_price c.indexed;
  stored = insert_stored hash tx pool.transactions pool.by_gas_price c.stored fresh;
  owned = insert_owned hash tx pool.transactions pool.by_nonce c.owned fresh;
}

forget-IsConsistent :
    (hash : Hash) (tx : Transaction) (pool : Mempool)
    → IsConsistent pool
    → HashMap.get hash pool.transactions ≡ some tx
    → IsConsistent (forget hash tx pool)
forget-IsConsistent hash tx pool c here = record {
  falling = drop_hash-IsFalling tx.gas_price hash pool.by_gas_price c.falling;
  indexed = remove_indexed hash tx pool.transactions pool.by_gas_price c.falling c.indexed;
  stored = remove_stored hash tx pool.transactions pool.by_gas_price c.falling c.stored here;
  owned = remove_owned hash tx pool.transactions pool.by_nonce c.owned here;
}

module _ ⦃h : Hasher⦄ ⦃b : Bincode⦄ where
  -- What a successful `add_transaction` returns, and that the pool was below its limit.
  pub add_transaction-added :
      (tx : Transaction) (pool pool' : Mempool)
      → add_transaction tx pool ≡ added pool'
      → (enter (transaction_hash tx) tx pool ≡ pool') × (size pool < pool.max_size)
  unfolding add_transaction size
  add_transaction-added tx pool pool' e = ground arith

  -- If `add_transaction` succeeds on a pool whose three tables are consistent and which does not
  -- hold another transaction with the same hash, then the tables are consistent again, and
  -- `transactions` has the transaction under its hash and `by_nonce` has that hash under its
  -- sender and nonce.
  pub add_transaction-IsConsistent :
      (tx : Transaction) (pool pool' : Mempool)
      → IsConsistent pool
      → (HashMap.get (transaction_hash tx) pool.transactions ≡ none)
        ⊎ (HashMap.get (transaction_hash tx) pool.transactions ≡ some tx)
      → add_transaction tx pool ≡ added pool'
      → IsConsistent pool'
        × (HashMap.get (transaction_hash tx) pool'.transactions ≡ some tx)
        × (HashMap.get (tx.from, tx.nonce) pool'.by_nonce ≡ some (transaction_hash tx))
  add_transaction-IsConsistent tx pool pool' c fresh e =
      let made = (add_transaction-added tx pool pool' e).0 in
      (
        subst IsConsistent made (enter-IsConsistent (transaction_hash tx) tx pool c fresh),
        rw (← made) (HashMap.get-insert_self (transaction_hash tx) tx pool.transactions),
        rw (← made)
            (HashMap.get-insert_self (tx.from, tx.nonce) (transaction_hash tx) pool.by_nonce),
      )

remove_transaction-IsConsistent :
    (hash : Hash) (pool : Mempool) → IsConsistent pool → IsConsistent (remove_transaction hash pool)
unfolding remove_transaction
remove_transaction-IsConsistent hash pool c =
    elim (Option-cases (HashMap.get hash pool.transactions)) [
      | inl missing ↦ rw (missing, remove_transaction) c
      | inr (tx, here) ↦ rw (here, remove_transaction) (forget-IsConsistent hash tx pool c here)
    ]

remove_all-IsConsistent :
    (hashes : List Hash) (pool : Mempool)
    → IsConsistent pool
    → IsConsistent (remove_transactions hashes pool)
unfolding remove_transactions
remove_all-IsConsistent [] pool c = c
remove_all-IsConsistent (hash ∷ rest) pool c =
    remove_all-IsConsistent rest (remove_transaction hash pool)
      (remove_transaction-IsConsistent hash pool c)

-- `remove_transactions` on a pool whose three tables are consistent, whatever hashes it is given:
-- under a hash that is given no transaction is stored any more, and under any other hash what was
-- stored before; and the three tables are consistent again, so the price buckets hold exactly the
-- hashes that are still stored, each under its price, and `by_nonce` names only transactions that
-- are still stored, each under its sender and nonce. (That it names all of them is not stated.)
pub remove_transactions-IsConsistent :
    (hashes : List Hash) (g : Hash) (pool : Mempool)
    → IsConsistent pool
    → IsConsistent (remove_transactions hashes pool)
      × (HashMap.get g (remove_transactions hashes pool).transactions
          ≡ (if elem g hashes then none else HashMap.get g pool.transactions))
remove_transactions-IsConsistent hashes g pool c =
    (remove_all-IsConsistent hashes pool c, get-remove_transactions hashes g pool)
