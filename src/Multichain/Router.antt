-- ===== src/Multichain/Router.antt =====
-- `CrossChainTransaction` and `CrossChainRouter` of src/multichain/mod.rs. The sending half of a
-- channel is a type `S` of tokio's, and `try_send` its operation; its outcome is discarded.
use protonchain.Base.{ℕ, Option, none, some, List, [], length, if◌then◌else◌, nat_key}
use protonchain.Base.HashMap
use protonchain.Base.HashMap.{HashMap}
use protonchain.Types.{Hash, Address, hash_key}

pub data CrossChainStatus : Type 0 where
  pending source_confirmed in_transit target_confirmed failed : CrossChainStatus

pub record CrossChainTransaction : Type 0 where
  pub tx_id : Hash
  pub source_shard : ℕ
  pub target_shard : ℕ
  pub sender : Address
  pub receiver : Address
  pub amount : ℕ
  pub nonce : ℕ
  pub status : CrossChainStatus
  pub proof : Option (List ℕ)
  pub timestamp : ℕ

pub record CrossChainRouter (S : Type 0) : Type 0 where
  pub pending_txs : HashMap Hash CrossChainTransaction
  pub completed_txs : HashMap ℕ Hash
  pub shard_channels : HashMap ℕ S
  pub relay_validators : List Address

pub record CrossChainStats : Type 0 where
  pub pending_count : ℕ
  pub completed_count : ℕ

-- The errors of the two modules of sharding, as their messages name them.
pub data ShardError : Type 0 where
  already_pending transaction_not_found insufficient_balance : ShardError

-- `Result<(), String>`; the state after the call is returned beside it.
pub data Outcome : Type 0 where
  ok : Outcome
  err : ShardError → Outcome

module _ {S : Type 0} where
  -- `CrossChainRouter::new`
  abbrev pub new_router : CrossChainRouter S
  new_router = record {
    pending_txs = [];
    completed_txs = [];
    shard_channels = [];
    relay_validators = [];
  }

  -- `register_shard`
  unfoldable pub register_shard : ℕ → S → CrossChainRouter S → CrossChainRouter S
  register_shard shard_id sender router = record router {
    shard_channels = HashMap.insert shard_id sender router.shard_channels;
  }

  -- `if let Some(sender) = channels.get(&tx.target_shard) { let _ = sender.try_send(tx); }`
  unfoldable pub notify :
      (S → CrossChainTransaction → S) → CrossChainTransaction → HashMap ℕ S → HashMap ℕ S
  notify try_send tx channels = elim (HashMap.get tx.target_shard channels) [
    | none ↦ channels
    | some sender ↦ HashMap.insert tx.target_shard (try_send sender tx) channels
  ]

  -- `submit_cross_tx`
  unfoldable pub submit_cross_tx :
      (S → CrossChainTransaction → S)
      → CrossChainTransaction
      → CrossChainRouter S
      → Outcome × CrossChainRouter S
  submit_cross_tx try_send tx router =
      if HashMap.contains_key tx.tx_id router.pending_txs
      then (Outcome.err ShardError.already_pending, router)
      else (
        Outcome.ok,
        record router {
          pending_txs = HashMap.insert tx.tx_id tx router.pending_txs;
          shard_channels = notify try_send tx router.shard_channels;
        },
      )

  -- `confirm_tx`; the status and proof that it writes go with the entry that it removes
  unfoldable pub confirm_tx : Hash → List ℕ → CrossChainRouter S → Outcome × CrossChainRouter S
  confirm_tx tx_id proof router = elim (HashMap.get tx_id router.pending_txs) [
    | none ↦ (Outcome.err ShardError.transaction_not_found, router)
    | some tx ↦ (
      Outcome.ok,
      record router {
        completed_txs = HashMap.insert tx.timestamp tx_id router.completed_txs;
        pending_txs = HashMap.remove tx_id (
            HashMap.insert tx_id
              (record tx { status = CrossChainStatus.target_confirmed; proof = some proof })
              router.pending_txs);
      },
    )
  ]

  -- `get_pending`
  unfoldable pub get_pending : CrossChainRouter S → List CrossChainTransaction
  get_pending router = HashMap.values router.pending_txs

  -- `get_stats` of the router
  unfoldable pub router_stats : CrossChainRouter S → CrossChainStats
  router_stats router = record {
    pending_count = length router.pending_txs;
    completed_count = length router.completed_txs;
  }
