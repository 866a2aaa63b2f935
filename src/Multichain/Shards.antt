-- ===== src/Multichain/Shards.antt =====
-- `ShardManager` of src/multichain/mod.rs: its shards, and the movement of value between them. The
-- key of a shard's consensus and the `f64` arithmetic are left out, and `Address::hash`, which
-- src/types does not define, is a parameter.
use protonchain.Base.{
  ℕ, ◌-◌, ◌+◌, ◌*◌, ◌%◌, ◌^◌, zero, suc, Bool, ◌&&◌, Option, none, some, List, [], ◌∷◌, map, length,
  replicate, ltb, eqb, if◌then◌else◌, nat_key,
}
use protonchain.Base.HashMap
use protonchain.Base.HashMap.{HashMap}
use protonchain.Types.{
  Hash, Hasher, Bincode, Address, Account, Transaction, ChainConfig, hash_key, address_key,
  zero_hash, address_of,
}
use protonchain.Consensus.Validators.{ValidatorSet, Shuffle, get_random_committee}
use protonchain.Consensus.Engine.{Engine, new_engine}
use protonchain.Consensus.Mempool
use protonchain.Consensus.Mempool.{AddResult}
use protonchain.Vm.{VmState, GasSchedule, default_schedule, account_at}
use protonchain.Multichain.Router.{
  CrossChainTransaction, CrossChainRouter, CrossChainStats, CrossChainStatus, ShardError, Outcome,
  submit_cross_tx, confirm_tx, router_stats,
}

-- `vm` is a `ProtonVM`: its state and its gas schedule.
pub record ShardConfig : Type 0 where
  pub shard_id : ℕ
  pub validators : List Address
  pub consensus : Engine
  pub vm : VmState × GasSchedule
  pub cross_chain_enabled : Bool

pub record ShardState : Type 0 where
  pub accounts : HashMap Address Account
  pub nonce_tracker : HashMap Address ℕ
  pub last_block_hash : Hash
  pub cross_chain_nonce : ℕ

pub record Shard : Type 0 where
  pub config : ShardConfig
  pub state : ShardState
  pub block_height : ℕ
  pub pending_cross_txs : List CrossChainTransaction

pub record ShardManager (S : Type 0) : Type 0 where
  pub shards : HashMap ℕ Shard
  pub cross_chain_router : CrossChainRouter S
  pub config : ChainConfig
  pub total_tx_processed : ℕ

pub record ShardInfo : Type 0 where
  pub shard_id : ℕ
  pub block_height : ℕ
  pub validator_count : ℕ
  pub mempool_size : ℕ
  pub pending_cross_txs : ℕ

-- `Result<u16, String>` of `route_transaction`; `panicked` is a remainder by a shard count of 0.
pub data Routed (S : Type 0) : Type 0 where
  routed : ℕ → ShardManager S → Routed S
  refused_full refused_no_shard panicked : Routed S

-- the state of a shard without accounts
abbrev pub new_state : ShardState
new_state = record {
  accounts = [];
  nonce_tracker = [];
  last_block_hash = zero_hash;
  cross_chain_nonce = 0;
}

module _ ⦃h : Hasher⦄ ⦃r : Shuffle⦄ where
  -- the body of the loop of `initialize_shards`
  unfoldable pub new_shard : ChainConfig → ValidatorSet → ℕ → Shard
  new_shard config set shard_id = record {
    config = record {
      shard_id = shard_id;
      validators = get_random_committee set shard_id 16;
      consensus = new_engine config set (address_of (replicate 32 (shard_id % 2 ^ 8)));
      vm = (
        record {
          accounts = [];
          contracts = [];
          storage = [];
          block_context = record {
            height = 0;
            timestamp = 0;
            coinbase = address_of (replicate 32 0);
            difficulty = 1;
            gas_limit = config.max_block_gas;
          };
        },
        default_schedule,
      );
      cross_chain_enabled = config.cross_chain_enabled;
    };
    state = new_state;
    block_height = 0;
    pending_cross_txs = [];
  }

  -- the loop over `0..shard_count`, from the `left` shards that are still to come
  unfoldable pub add_shards : ChainConfig → ValidatorSet → ℕ → ℕ → HashMap ℕ Shard → HashMap ℕ Shard
  add_shards config set zero shard_id shards = shards
  add_shards config set (suc left) shard_id shards =
      add_shards config set left (suc shard_id)
        (HashMap.insert shard_id (new_shard config set shard_id) shards)

  -- `initialize_shards`
  unfoldable pub initialize_shards : {S : Type 0} → ValidatorSet → ShardManager S → ShardManager S
  unfolding add_shards
  initialize_shards set manager = record manager {
    shards = add_shards manager.config set manager.config.shard_count 0 manager.shards;
  }

-- the first two bytes of a hash, as a `u16`
unfoldable pub first_two : Hash → ℕ
first_two hash = elim hash.bytes [ (a ∷ b ∷ _) ↦ a + 256 * b | _ ↦ 0 ]

-- the accounts of a shard replaced
abbrev pub set_accounts : ℕ → Shard → HashMap Address Account → HashMap ℕ Shard → HashMap ℕ Shard
set_accounts shard_id shard accounts shards =
    HashMap.insert shard_id (record shard { state = record (shard.state) { accounts = accounts } })
      shards

-- the sender's account after `balance -= amount`, which the check has made safe
unfoldable pub debited : CrossChainTransaction → HashMap Address Account → HashMap Address Account
debited tx accounts =
    let sender = account_at tx.sender accounts in
    HashMap.insert tx.sender (record sender { balance = sender.balance - tx.amount }) accounts

-- the receiver's account after `balance += amount`
unfoldable pub credited : CrossChainTransaction → HashMap Address Account → HashMap Address Account
credited tx accounts =
    let receiver = account_at tx.receiver accounts in
    HashMap.insert tx.receiver
      (record receiver { balance = (receiver.balance + tx.amount) % 2 ^ 128 }) accounts

-- the record that both queries make of a shard
unfoldable pub info_of : ℕ → Shard → ShardInfo
unfolding Mempool.size
info_of shard_id shard = record {
  shard_id = shard_id;
  block_height = shard.block_height;
  validator_count = length shard.config.validators;
  mempool_size = Mempool.size shard.config.consensus.mempool;
  pending_cross_txs = length shard.pending_cross_txs;
}

module _ {S : Type 0} where
  -- `ShardManager::new`
  unfoldable pub new_manager : ChainConfig → CrossChainRouter S → ShardManager S
  new_manager config router = record {
    shards = [];
    cross_chain_router = router;
    config = config;
    total_tx_processed = 0;
  }

  -- the transaction enters the mempool of the shard
  unfoldable pub enter_shard :
      ⦃h : Hasher⦄ ⦃b : Bincode⦄ → Transaction → ℕ → ShardManager S → Routed S
  enter_shard tx shard_id manager = elim (HashMap.get shard_id manager.shards) [
    | none ↦ Routed.refused_no_shard
    | some shard ↦ elim (Mempool.add_transaction tx shard.config.consensus.mempool) [
      | AddResult.mempool_full ↦ Routed.refused_full
      | AddResult.added pool ↦ Routed.routed shard_id (record manager {
        shards =
            HashMap.insert shard_id
              (record shard {
                config = record (shard.config) {
                  consensus = record (shard.config.consensus) { mempool = pool };
                };
              })
              manager.shards;
      })
    ]
  ]

  -- `route_transaction`
  unfoldable pub route_transaction :
      ⦃h : Hasher⦄ ⦃b : Bincode⦄ → (Address → Hash) → Transaction → ShardManager S → Routed S
  unfolding enter_shard
  route_transaction address_hash tx manager =
      if ltb 0 tx.shard_id && ltb tx.shard_id manager.config.shard_count
      then enter_shard tx tx.shard_id manager
      else (if eqb manager.config.shard_count 0
          then Routed.panicked
          else enter_shard tx (first_two (address_hash tx.from) % manager.config.shard_count)
              manager)

  -- `process_cross_chain_tx`; the `?` returns after the debit
  unfoldable pub process_cross_chain_tx :
      (S → CrossChainTransaction → S)
      → CrossChainTransaction
      → ShardManager S
      → Outcome × ShardManager S
  process_cross_chain_tx try_send tx manager = elim (HashMap.get tx.source_shard manager.shards) [
    | none ↦ (Outcome.ok, manager)
    | some shard ↦
        if ltb (account_at tx.sender shard.state.accounts).balance tx.amount
        then (Outcome.err ShardError.insufficient_balance, manager)
        else (let (outcome, router) =
              submit_cross_tx try_send (record tx { status = CrossChainStatus.source_confirmed })
                manager.cross_chain_router in
            (
              outcome,
              record manager {
                shards =
                    set_accounts tx.source_shard shard (debited tx shard.state.accounts)
                      manager.shards;
                cross_chain_router = router;
              },
            ))
  ]

  -- `receive_cross_chain_tx`; the `?` returns after the credit
  unfoldable pub receive_cross_chain_tx :
      CrossChainTransaction → ShardManager S → Outcome × ShardManager S
  receive_cross_chain_tx tx manager = elim (HashMap.get tx.target_shard manager.shards) [
    | none ↦ (Outcome.ok, manager)
    | some shard ↦
        let (outcome, router) = confirm_tx tx.tx_id (1 ∷ []) manager.cross_chain_router in
        (
          outcome,
          record manager {
            shards =
                set_accounts tx.target_shard shard (credited tx shard.state.accounts)
                  manager.shards;
            cross_chain_router = router;
          },
        )
  ]

  -- `get_shard_info`
  unfoldable pub get_shard_info : ℕ → ShardManager S → Option ShardInfo
  unfolding info_of
  get_shard_info shard_id manager = elim (HashMap.get shard_id manager.shards) [
    | none ↦ none
    | some shard ↦ some (info_of shard_id shard)
  ]

  -- `get_all_shard_stats`
  unfoldable pub get_all_shard_stats : ShardManager S → List ShardInfo
  unfolding info_of
  get_all_shard_stats manager = map (λ e. info_of e.0 e.1) manager.shards

  -- `get_cross_chain_stats`
  unfoldable pub get_cross_chain_stats : ShardManager S → CrossChainStats
  get_cross_chain_stats manager = router_stats manager.cross_chain_router
