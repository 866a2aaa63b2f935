-- ===== src/Node.antt =====
-- `ProtonNode` of src/lib.rs: the parts a node is made of, and its calls. The runtime, RocksDB, the
-- key and the network are set up by libraries, so what they come to is an argument of `new_node`. A
-- sending half of a channel is `S`, a database `D`, a cache `C` and a peer's id `P`. The `f64` of
-- `get_stats` is left out. Each part stands behind its own `Arc` and no two parts write the same.
pub mod Submit
pub mod Fresh
pub mod First
pub mod Propose
mod Tests
use protonchain.Base.{
  ℕ, Bool, true, false, Option, none, some, List, [], ◌∷◌, ◌⊎◌, inl, inr, length, replicate,
  if◌then◌else◌,
}
use protonchain.Types.{
  Hash, Hasher, Bincode, Address, Transaction, Block, ChainConfig, transaction_hash, address_of,
}
use protonchain.Consensus.Validators.{Shuffle, ValidatorSet, new_set}
use protonchain.Consensus.Engine
use protonchain.Consensus.Engine.{Engine, new_engine}
use protonchain.Vm
use protonchain.Vm.{VmState, GasSchedule, default_schedule}
use protonchain.Multichain.Router.{CrossChainRouter, new_router}
use protonchain.Multichain.Shards.{
  ShardManager, Routed, new_manager, initialize_shards, route_transaction, get_all_shard_stats,
}
use protonchain.Network.Peers
use protonchain.Network.Peers.{NetworkNode, new_network}
use protonchain.Storage.State.{StateStorage}
use protonchain.Privacy.Circuit.{PrimeField}
use protonchain.Privacy.Proofs.{Groth16, ZkError, ZkProtonSystem, new_system, setup}

pub record NodeStats : Type 0 where
  pub height : ℕ
  pub mempool_size : ℕ
  pub shard_count : ℕ
  pub peer_count : ℕ

-- the errors of `ProtonNode::new`, in the order in which they can come
pub data NodeError : Type 0 where
  no_runtime no_database : NodeError
  no_setup : ZkError → NodeError
  invalid_key no_network : NodeError

-- What the libraries return to `ProtonNode::new`; `none` and `false` are errors.
pub record Surroundings (D C P : Type 0) : Type 0 where
  pub runtime : Bool
  pub database : Option D
  pub cache : ℕ → C
  pub key : Bool
  pub peer : Option P

module _ ⦃field : PrimeField⦄ ⦃groth : Groth16⦄ where
  pub record ProtonNode (S D C P : Type 0) : Type 0 where
    pub config : ChainConfig
    pub consensus : Engine
    pub vm : VmState × GasSchedule
    pub shard_manager : ShardManager S
    pub network : NetworkNode P
    pub storage : StateStorage D C
    pub zk_system : ZkProtonSystem

  -- `Result<Hash, String>` of `submit_transaction`, with the node after it
  pub data Submitted (S D C P : Type 0) : Type 0 where
    submitted : Hash → ProtonNode S D C P → Submitted S D C P
    refused_full refused_no_shard panicked : Submitted S D C P

  module _ {S D C P : Type 0} where
    -- the record at the end of `new`, from the parts that can fail
    unfoldable pub assemble :
        ⦃h : Hasher⦄ ⦃r : Shuffle⦄
        → ChainConfig
        → D
        → (ℕ → C)
        → ZkProtonSystem
        → P
        → ProtonNode S D C P
    unfolding initialize_shards new_engine new_set
    assemble config db cache zk peer =
        let my_address = address_of (replicate 32 1) in
        record {
          config = config;
          consensus = new_engine config new_set my_address;
          vm = (
            record {
              accounts = [];
              contracts = [];
              storage = [];
              block_context = record {
                height = 0;
                timestamp = 0;
                coinbase = address_of (replicate 32 0);
                difficulty = 1;
                gas_limit = config.max_block_gas;
              };
            },
            default_schedule,
          );
          shard_manager = initialize_shards new_set (new_manager config new_router);
          network = new_network peer my_address 0;
          storage = record { db = db; cache = cache 100_000; pending_changes = [] };
          zk_system = zk;
        }

    -- `ProtonNode::new`
    unfoldable pub new_node :
        ⦃h : Hasher⦄ ⦃r : Shuffle⦄
        → ChainConfig
        → Surroundings D C P
        → NodeError ⊎ ProtonNode S D C P
    unfolding assemble setup
    new_node config around =
        if around.runtime
        then (elim around.database [
          | none ↦ inl NodeError.no_database
          | some db ↦
              let (error, zk) = setup new_system in
              elim error [
                | some e ↦ inl (NodeError.no_setup e)
                | none ↦
                    if around.key
                    then (elim around.peer [
                      | none ↦ inl NodeError.no_network
                      | some peer ↦ inr (assemble config db around.cache zk peer)
                    ])
                    else inl NodeError.invalid_key
              ]
        ])
        else inl NodeError.no_runtime

    -- `submit_transaction`
    unfoldable pub submit_transaction :
        ⦃h : Hasher⦄ ⦃b : Bincode⦄
        → (Address → Hash)
        → Transaction
        → ProtonNode S D C P
        → Submitted S D C P
    unfolding route_transaction
    submit_transaction address_hash tx node =
        elim (route_transaction address_hash tx node.shard_manager) [
          | Routed.routed id manager ↦
              submitted (transaction_hash tx) (record node { shard_manager = manager })
          | Routed.refused_full ↦ refused_full
          | Routed.refused_no_shard ↦ refused_no_shard
          | Routed.panicked ↦ panicked
        ]

    -- `get_balance`
    unfoldable pub get_balance : Address → ProtonNode S D C P → ℕ
    get_balance address node = elim (Vm.get_account node.vm.0 address) [
      | none ↦ 0
      | some account ↦ account.balance
    ]

    -- `get_block`
    unfoldable pub get_block : ℕ → ProtonNode S D C P → Option Block
    get_block height node = Engine.get_block node.consensus height

    -- `get_stats`, without `total_tps`
    unfoldable pub get_stats : ProtonNode S D C P → NodeStats
    unfolding Engine.get_stats get_all_shard_stats Peers.peer_count
    get_stats node = record {
      height = (Engine.get_stats node.consensus).height;
      mempool_size = (Engine.get_stats node.consensus).mempool_size;
      shard_count = length (get_all_shard_stats node.shard_manager);
      peer_count = Peers.peer_count node.network;
    }
