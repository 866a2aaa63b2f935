-- ===== src/Consensus/Mempool/Repeat.antt =====
-- A transaction that is submitted twice.
use protonchain.Base.{ℕ, ◌≤◌, ◌≡◌, [], ◌∷◌, arith}
use protonchain.Base.HashMap
use protonchain.Types.{
  Hasher, Bincode, Transaction, hash_key, same_hash_iff, address_key, same_address_iff,
  transaction_hash,
}
use protonchain.Consensus.Mempool.{
  Mempool, AddResult, added, mempool_full, new_mempool, add_transaction, get_transactions,
}

-- A call of `add_transaction` on the result of another.
abbrev pub and_then : AddResult → (Mempool → AddResult) → AddResult
and_then (added pool) f = f pool
and_then mempool_full f = mempool_full

module _ ⦃h : Hasher⦄ ⦃b : Bincode⦄ where
  -- One transaction submitted twice to an empty pool (with room for two) is stored once and
  -- selected twice, if its price is enough and the limit is two or more.
  pub add_transaction_twice :
      (tx : Transaction) (max_size limit least : ℕ)
      → 2 ≤ max_size
      → 2 ≤ limit
      → least ≤ tx.gas_price
      → (pool : Mempool) × (and_then
            (add_transaction tx (new_mempool max_size))
            (add_transaction tx)
          ≡ added pool)
        × (get_transactions pool limit least ≡ tx ∷ tx ∷ [])
  unfolding add_transaction get_transactions new_mempool HashMap.insert HashMap.get
  add_transaction_twice tx max_size limit least m l p =
      let hash = transaction_hash tx in
      let pool : Mempool = record {
        transactions = (hash, tx) ∷ [];
        by_nonce = ((tx.from, tx.nonce), hash) ∷ [];
        by_gas_price = (tx.gas_price, hash ∷ hash ∷ []) ∷ [];
        max_size = max_size;
      } in
      (
        pool,
        ground (arith, same_hash_iff hash hash, same_address_iff tx.from tx.from),
        ground (arith, same_hash_iff hash hash),
      )
