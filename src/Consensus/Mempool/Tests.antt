-- ===== src/Consensus/Mempool/Tests.antt =====
-- The mempool on concrete transactions, and the theorems at such inputs.
use protonchain.Base.{some, none, ◌≤◌, ◌≡◌, refl, [], ◌∷◌, inl, nat_key, pair_key, All, length}
use protonchain.Base.HashMap
use protonchain.Types.{
  Transaction, hash_key, address_key, digest, le_bytes, from_le_bytes, transaction_hash,
}
use protonchain.Fixtures.{low_hasher, short_bincode, hash, transaction}
use protonchain.Consensus.Mempool.{
  Mempool, added, mempool_full, enter, new_mempool, add_transaction, get_transactions,
  remove_transactions, remove_transaction, take_buckets, take_hashes, push_hash, drop_hash,
  retain_ne,
}
use protonchain.Consensus.Mempool.Consistency.{
  IsConsistent, new_mempool-IsConsistent, add_transaction-IsConsistent,
  remove_transactions-IsConsistent,
}
use protonchain.Consensus.Mempool.Selection.{NeverRises, IsPending, get_transactions_lem}
use protonchain.Consensus.Mempool.Repeat.{and_then}

-- What the tests compute with.
pool_code : Unit {0}
unfolding HashMap.get HashMap.insert HashMap.remove digest le_bytes from_le_bytes transaction_hash
    new_mempool add_transaction get_transactions remove_transactions remove_transaction take_buckets
    take_hashes push_hash drop_hash retain_ne
pool_code = tt

abbrev cheap : Transaction
cheap = transaction 0 100

abbrev dear : Transaction
dear = record (transaction 1 100) { gas_price = 40 }

abbrev one : Mempool
one = enter (transaction_hash cheap) cheap (new_mempool 9)

abbrev two : Mempool
two = enter (transaction_hash dear) dear one

two_are_added : and_then (add_transaction cheap (new_mempool 9)) (add_transaction dear) ≡ added two
unfolding pool_code
two_are_added = refl

dear_first : get_transactions two 10 1 ≡ dear ∷ cheap ∷ []
unfolding pool_code
dear_first = refl

at_least_20 : get_transactions two 10 20 ≡ dear ∷ []
unfolding pool_code
at_least_20 = refl

full_pool : add_transaction cheap (new_mempool 0) ≡ mempool_full
unfolding pool_code
full_pool = refl

one-IsConsistent : IsConsistent one
unfolding pool_code
one-IsConsistent =
    (add_transaction-IsConsistent cheap (new_mempool 9) one (new_mempool-IsConsistent 9) (inl refl)
      refl).0

add_transaction-IsConsistent_example :
    IsConsistent two
    × (HashMap.get (transaction_hash dear) two.transactions ≡ some dear)
    × (HashMap.get (dear.from, dear.nonce) two.by_nonce ≡ some (transaction_hash dear))
unfolding pool_code
add_transaction-IsConsistent_example =
    add_transaction-IsConsistent dear one two one-IsConsistent (inl refl) refl

two-IsConsistent : IsConsistent two
unfolding pool_code
two-IsConsistent = (add_transaction-IsConsistent dear one two one-IsConsistent (inl refl) refl).0

remove_transactions-IsConsistent_example :
    let left = remove_transactions (transaction_hash cheap ∷ hash 99 ∷ []) two in
    IsConsistent left × (HashMap.get (transaction_hash dear) left.transactions ≡ some dear)
unfolding pool_code
remove_transactions-IsConsistent_example =
    remove_transactions-IsConsistent (transaction_hash cheap ∷ hash 99 ∷ []) (transaction_hash dear)
      two two-IsConsistent

-- Two transactions with one sender and one nonce: after the first is removed the second is still
-- stored, and `by_nonce` has lost it.
abbrev rival : Transaction
rival = transaction 0 200

abbrev shared : Mempool
shared =
    remove_transactions (transaction_hash cheap ∷ []) (enter (transaction_hash rival) rival one)

nonce_is_lost :
    (HashMap.get (transaction_hash rival) shared.transactions ≡ some rival)
    × (HashMap.get (rival.from, rival.nonce) shared.by_nonce ≡ none)
unfolding pool_code
nonce_is_lost = (refl, refl)

get_transactions_lem_example :
    let out = get_transactions two 1 1 in
    NeverRises out × All (IsPending two.transactions 1 1) out × (length out ≤ 1)
get_transactions_lem_example = get_transactions_lem two 1 1 two-IsConsistent
