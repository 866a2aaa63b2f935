-- ===== src/Multichain/Supply.antt =====
-- The value that is held by the shards or on its way between them.
use protonchain.Base.{
  [], none, ◌∷◌, true, ℕ, ◌+◌, ◌-◌, ◌^◌, ◌%◌, ◌≤◌, ◌<◌, ◌≡◌, subst, some, arith, nat_key,
}
use protonchain.Base.HashMap
use protonchain.Base.HashMap.{HashMap}
use protonchain.Base.HashMap.Sum.{
  insert-HasDistinctKeys, sum-remove, HasDistinctKeys, sum, sum-insert, weight_of,
}
use protonchain.Types.{Hash, hash_key, Address, Account, hash_key, address_key}
use protonchain.Vm.{account_at}
use protonchain.Vm.Supply.{total_balance, total_balance-insert}
use protonchain.Multichain.Router.{
  confirm_tx, ShardError, CrossChainTransaction, CrossChainStatus, Outcome, submit_cross_tx,
}
use protonchain.Multichain.Shards.{
  receive_cross_chain_tx, Shard, ShardManager, set_accounts, debited, credited,
  process_cross_chain_tx,
}

-- the sum of the balances of a shard
abbrev pub shard_balance : Shard → ℕ
shard_balance shard = total_balance shard.state.accounts

-- the sum of the balances of all shards
abbrev pub held : {S : Type 0} → ShardManager S → ℕ
held manager = sum shard_balance manager.shards

-- the sum of the amounts that are pending in the router
abbrev pub in_transit : {S : Type 0} → ShardManager S → ℕ
in_transit manager = sum (λ tx. tx.amount) manager.cross_chain_router.pending_txs

total_balance-debited :
    (tx : CrossChainTransaction) (m : HashMap Address Account)
    → tx.amount ≤ (account_at tx.sender m).balance
    → total_balance (debited tx m) + tx.amount ≡ total_balance m
unfolding debited
total_balance-debited tx m h =
    let sender = account_at tx.sender m in
    omega (
      arith,
      total_balance-insert tx.sender (record sender { balance = sender.balance - tx.amount }) m,
    )

total_balance-credited :
    (tx : CrossChainTransaction) (m : HashMap Address Account)
    → (account_at tx.receiver m).balance + tx.amount < 2 ^ 128
    → total_balance (credited tx m) ≡ total_balance m + tx.amount
unfolding credited
total_balance-credited tx m h =
    let receiver = account_at tx.receiver m in
    omega (
      arith,
      total_balance-insert tx.receiver
          (record receiver { balance = (receiver.balance + tx.amount) % 2 ^ 128 }) m,
    )

-- A pending transfer is confirmed by rewriting its entry and then removing it.
in_transit-remove :
    (id : Hash) (old new : CrossChainTransaction) (m : HashMap Hash CrossChainTransaction)
    → HasDistinctKeys m
    → HashMap.get id m ≡ some old
    → sum (λ tx. tx.amount) (HashMap.remove id (HashMap.insert id new m)) + old.amount
      ≡ sum (λ tx. tx.amount) m
in_transit-remove id old new m distinct found =
    let m' = HashMap.insert id new m in
    let removed = sum-remove (λ tx. tx.amount) id m' (insert-HasDistinctKeys id new m distinct) in
    let inserted = sum-insert (λ tx. tx.amount) id new m in
    ground (arith, removed, inserted, found, HashMap.get-insert_self id new m)

module _ {S : Type 0} (tx : CrossChainTransaction) (manager : ShardManager S) (shard : Shard) where
  -- the sum over the shards after one shard got other accounts
  held-set_accounts :
      (id : ℕ) (accounts : HashMap Address Account)
      → HashMap.get id manager.shards ≡ some shard
      → sum shard_balance (set_accounts id shard accounts manager.shards) + shard_balance shard
        ≡ held manager + total_balance accounts
  held-set_accounts id accounts found =
      subst
        (λ o.
          sum shard_balance (set_accounts id shard accounts manager.shards)
            + weight_of shard_balance o
          ≡ held manager + total_balance accounts)
        found
        (sum-insert shard_balance id
          (record shard { state = record (shard.state) { accounts = accounts } }) manager.shards)

  -- A cross-chain transfer from a known shard that the router accepts takes its amount from the
  -- balances and puts it in transit: the value held or in transit stays the same.
  pub process_cross_chain_tx-held :
      (try_send : S → CrossChainTransaction → S)
      → HashMap.get tx.source_shard manager.shards ≡ some shard
      → (process_cross_chain_tx try_send tx manager).0 ≡ Outcome.ok
      → let manager' = (process_cross_chain_tx try_send tx manager).1 in
        (held manager' + tx.amount ≡ held manager)
        × (in_transit manager' ≡ in_transit manager + tx.amount)
  unfolding process_cross_chain_tx submit_cross_tx HashMap.contains_key
  process_cross_chain_tx-held try_send found done = ground (
    arith,
    total_balance-debited tx shard.state.accounts,
    held-set_accounts tx.source_shard (debited tx shard.state.accounts) found,
    sum-insert (λ tx. tx.amount) tx.tx_id (record tx { status = CrossChainStatus.source_confirmed })
        manager.cross_chain_router.pending_txs,
  )

  -- A cross-chain transfer from a known shard that the sender can pay for, but whose identifier is
  -- pending, is refused, and yet the sender is debited:
  -- its amount is neither held nor in transit afterwards.
  pub process_cross_chain_tx-already_pending :
      (try_send : S → CrossChainTransaction → S)
      → HashMap.get tx.source_shard manager.shards ≡ some shard
      → tx.amount ≤ (account_at tx.sender shard.state.accounts).balance
      → HashMap.contains_key tx.tx_id manager.cross_chain_router.pending_txs ≡ true
      → let (outcome, manager') = process_cross_chain_tx try_send tx manager in
        (outcome ≡ Outcome.err ShardError.already_pending)
        × (held manager' + tx.amount ≡ held manager)
        × (in_transit manager' ≡ in_transit manager)
  unfolding process_cross_chain_tx submit_cross_tx
  process_cross_chain_tx-already_pending try_send found paid old = ground (
    arith,
    total_balance-debited tx shard.state.accounts paid,
    held-set_accounts tx.source_shard (debited tx shard.state.accounts) found,
  )

  -- The receipt, on a known shard, of a transfer whose identifier is pending is confirmed. The value
  -- held grows by the amount that the caller names, and the value in transit falls by the amount of
  -- the pending entry; the two are not compared. (The table of the pending has one entry for each
  -- identifier, and the receiver's balance does not overflow.)
  pub receive_cross_chain_tx-held :
      (entry : CrossChainTransaction)
      → HashMap.get tx.target_shard manager.shards ≡ some shard
      → HasDistinctKeys manager.cross_chain_router.pending_txs
      → HashMap.get tx.tx_id manager.cross_chain_router.pending_txs ≡ some entry
      → (account_at tx.receiver shard.state.accounts).balance + tx.amount < 2 ^ 128
      → let (outcome, manager') = receive_cross_chain_tx tx manager in
        (outcome ≡ Outcome.ok)
        × (held manager' ≡ held manager + tx.amount)
        × (in_transit manager' + entry.amount ≡ in_transit manager)
  unfolding receive_cross_chain_tx confirm_tx
  receive_cross_chain_tx-held entry found distinct waiting room = ground (
    arith,
    total_balance-credited tx shard.state.accounts room,
    held-set_accounts tx.target_shard (credited tx shard.state.accounts) found,
    in_transit-remove tx.tx_id entry
        (record entry { status = CrossChainStatus.target_confirmed; proof = some (1 ∷ []) })
        manager.cross_chain_router.pending_txs distinct waiting,
  )

  -- The receipt, on a known shard, of a transfer that is not pending, such as one that was received
  -- before, is refused, and yet the receiver is credited: the value held grows by the amount. (The
  -- receiver's balance does not overflow.)
  pub receive_cross_chain_tx-not_pending :
      HashMap.get tx.target_shard manager.shards ≡ some shard
      → HashMap.get tx.tx_id manager.cross_chain_router.pending_txs ≡ none
      → (account_at tx.receiver shard.state.accounts).balance + tx.amount < 2 ^ 128
      → let (outcome, manager') = receive_cross_chain_tx tx manager in
        (outcome ≡ Outcome.err ShardError.transaction_not_found)
        × (held manager' ≡ held manager + tx.amount)
        × (in_transit manager' ≡ in_transit manager)
  unfolding receive_cross_chain_tx confirm_tx
  receive_cross_chain_tx-not_pending found gone room = ground (
    arith,
    total_balance-credited tx shard.state.accounts room,
    held-set_accounts tx.target_shard (credited tx shard.state.accounts) found,
  )
