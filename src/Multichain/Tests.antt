-- ===== src/Multichain/Tests.antt =====
-- Runs of the shards on concrete values.
use protonchain.Base.{◌+◌, ◌≡◌, refl, none, List, [], ◌∷◌, ◌++◌, arith}
use protonchain.Base.HashMap
use protonchain.Vm.{account_at}
use protonchain.Types.{zero_hash, le_bytes, default_config}
use protonchain.Fixtures.{
  unshuffled, low_hasher, short_bincode, address, hash, account, four_validators,
}
use protonchain.Multichain.Router.{
  notify, submit_cross_tx, CrossChainTransaction, CrossChainStatus, Outcome, new_router, confirm_tx,
  router_stats,
}
use protonchain.Multichain.Shards.{
  credited, debited, Shard, ShardManager, new_shard, new_manager, process_cross_chain_tx,
  receive_cross_chain_tx,
}
use protonchain.Multichain.Supply.{
  held, in_transit, process_cross_chain_tx-held, process_cross_chain_tx-already_pending,
  receive_cross_chain_tx-held,
}

-- a channel is the list of what was sent on it
abbrev send : List CrossChainTransaction → CrossChainTransaction → List CrossChainTransaction
send sent tx = sent ++ tx ∷ []

abbrev payment : CrossChainTransaction
payment = record {
  tx_id = hash 7;
  source_shard = 0;
  target_shard = 1;
  sender = address 1;
  receiver = address 2;
  amount = 300;
  nonce = 0;
  status = CrossChainStatus.pending;
  proof = none;
  timestamp = 50;
}

-- shard 0 with 1000 on account 1, and shard 1 with 5 on account 2
abbrev first_shard : Shard
first_shard =
    let shard = new_shard default_config four_validators 0 in
    record shard { state = record (shard.state) { accounts = (address 1, account 1000 0) ∷ [] } }

abbrev second_shard : Shard
second_shard =
    let shard = new_shard default_config four_validators 1 in
    record shard { state = record (shard.state) { accounts = (address 2, account 5 0) ∷ [] } }

abbrev two_shards : ShardManager (List CrossChainTransaction)
two_shards = record (new_manager default_config new_router) {
  shards = (0, first_shard) ∷ (1, second_shard) ∷ [];
}

-- the same, with the payment pending
abbrev underway : ShardManager (List CrossChainTransaction)
underway = record two_shards {
  cross_chain_router = record new_router { pending_txs = (hash 7, payment) ∷ [] };
}

-- what the runs unfold
sharding : Unit {0}
unfolding new_manager new_shard process_cross_chain_tx receive_cross_chain_tx submit_cross_tx notify
    confirm_tx router_stats debited credited account_at HashMap.get HashMap.insert HashMap.remove
    HashMap.contains_key le_bytes zero_hash
sharding = tt

payment_runs : (process_cross_chain_tx send payment two_shards).0 ≡ Outcome.ok
unfolding sharding
payment_runs = refl

process_cross_chain_tx-held_example :
    held (process_cross_chain_tx send payment two_shards).1 + 300 ≡ 1005
unfolding sharding
process_cross_chain_tx-held_example =
    (process_cross_chain_tx-held payment two_shards first_shard send refl refl).0

process_cross_chain_tx-already_pending_example :
    held (process_cross_chain_tx send payment underway).1 + 300 ≡ 1005
unfolding sharding
process_cross_chain_tx-already_pending_example =
    (process_cross_chain_tx-already_pending payment underway first_shard send refl (omega arith)
      refl).1

-- A receipt that names 900 for the pending payment of 300: 600 are made from nothing.
abbrev raised : CrossChainTransaction
raised = record payment { amount = 900 }

receive_cross_chain_tx-held_example :
    let (outcome, manager') = receive_cross_chain_tx raised underway in
    (outcome ≡ Outcome.ok)
    × (held manager' ≡ held underway + 900)
    × (in_transit manager' + 300 ≡ in_transit underway)
unfolding sharding
receive_cross_chain_tx-held_example =
    receive_cross_chain_tx-held raised underway second_shard payment refl (refl, tt) refl
      (omega arith)

abbrev no_shards : ShardManager (List CrossChainTransaction)
no_shards = record (new_manager default_config new_router) { shards = [] }
