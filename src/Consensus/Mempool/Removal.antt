-- ===== src/Consensus/Mempool/Removal.antt =====
-- What `remove_transactions` takes out of the pool.
use protonchain.Base.{
  ◌≡◌, inl, inr, refl, none, List, [], ◌∷◌, arith, ◌==◌, if◌then◌else◌, Option-cases,
}
use protonchain.Base.HashMap
use protonchain.Types.{Hash, hash_key, same_hash_iff}
use protonchain.Consensus.Mempool.{Mempool, remove_transaction, remove_transactions}
use protonchain.Consensus.Mempool.Buckets.{elem}

get-remove_transaction :
    (hash g : Hash) (pool : Mempool)
    → HashMap.get g (remove_transaction hash pool).transactions
      ≡ (if hash == g then none else HashMap.get g pool.transactions)
unfolding remove_transaction
get-remove_transaction hash g pool = elim (Option-cases (HashMap.get hash pool.transactions)) [
  | inl missing ↦ rw (missing, remove_transaction) (ground (arith, same_hash_iff hash g))
  | inr (tx, here) ↦ rw (here, remove_transaction) (HashMap.get-remove hash g pool.transactions)
]

-- After `remove_transactions` no given hash is stored, and every other one is stored as before.
pub get-remove_transactions :
    (hashes : List Hash) (g : Hash) (pool : Mempool)
    → HashMap.get g (remove_transactions hashes pool).transactions
      ≡ (if elem g hashes then none else HashMap.get g pool.transactions)
unfolding remove_transactions
get-remove_transactions [] g pool = refl
get-remove_transactions (hash ∷ rest) g pool = ground (
  arith,
  get-remove_transactions rest g (remove_transaction hash pool),
  get-remove_transaction hash g pool,
)
