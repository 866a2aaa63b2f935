-- ===== src/Lib.antt =====
-- Proton Chain: a model of the node's core and its theorems.
--
-- The program is a node of a blockchain written in Rust, and a set of contracts over an SDK. A node
-- takes transactions into a mempool (src/consensus/mod.rs), makes blocks of them, validates the
-- blocks of others by Merkle root, leader and signature, and certifies them by quorum certificates
-- over the stakes of a validator set. The virtual machine (src/vm/mod.rs) executes transactions on
-- accounts, and the shards (src/multichain/mod.rs) route transactions and move value between them.
-- `ProtonNode` (src/lib.rs) puts the parts together, and src/bin/cli.rs starts it.
-- All of them use the types, the hash and the Merkle tree of src/types/mod.rs.
--
-- Which file models which part:
--   Base              the shared names; `HashMap` is std's, as an association list
--   Types, Types/Ids  src/types/mod.rs: the structs, `Hash::new` (`digest`), `Address::new`
--                     (`address_of`), `Transaction::hash`, `gas_cost`, `is_private`
--   Types/Merkle      `MerkleTree::root`: one round is `level`, the loop is `climb`
--   Consensus/Validators, Consensus/Quorum, Consensus/Mempool, Consensus/Engine
--                     src/consensus/mod.rs: `ValidatorSet`, `QuorumCertificate`, `Mempool` and
--                     `HotStuffConsensus` (as `Engine`)
--   Consensus/Dag     src/consensus/mod.rs: `DagOrdering`; sets of hashes (Sets), the maps that the
--                     sort builds (Degrees), its invariant (Order), its loops (Sort), its result
--                     (Result), the ancestors (Ancestors), and both together (History)
--   Vm                src/vm/mod.rs: `ProtonVM`'s executions as functions on `VmState`; the orders
--                     of the threads of `ParallelExecutor` (Vm/Parallel)
--   Multichain        src/multichain/mod.rs: `CrossChainRouter` (Multichain/Router) and
--                     `ShardManager` (Multichain/Shards), with the value they hold together
--   Storage           src/storage/mod.rs: `MemoryDB` (Storage/Memory), `RocksDB` over the rocksdb
--                     library (Storage/Rocks), the keys (Storage/Keys),
--                     `StateStorage`, `StateSnapshot` and the pruner's count (Storage/State), over
--                     the interfaces of a database, a cache and a codec (Storage/Interface)
--   Network           src/network/mod.rs: the messages and topics, `TxBroadcaster` with its lock
--                     (Broadcast), `BlockSync` (Sync), `NetworkNode` with its peers, events and
--                     `broadcast` (Peers)
--   Node              src/lib.rs: `ProtonNode`, made of the engine, the virtual machine, the shards,
--                     the network and the storage; its submissions (Submit), and what a node just
--                     started answers (Fresh, First, Propose)
--   Cli               src/bin/cli.rs: the commands and what they compute (Answers)
--   Privacy           src/privacy/mod.rs: `StealthAddressGenerator` (Stealth), `encrypt_amount`
--                     (Amount), `PrivateTransferCircuit` (Circuit), `ZkProtonSystem` and
--                     `PrivacyTxBuilder` (Proofs), `EncryptedMempool` (Mempool)
--   Sdk               src/sdk.rs: `u256` (Sdk/U256), `Map` and `Set` over the host's storage, the other
--                     calls of the host (Sdk/Calls)
--   Contracts/Staking contracts/staking.rs: stakes, the unbonding queue, rewards
--   Contracts/Dex     contracts/dex.rs: pairs, deposits, quotes (Quotes), private swaps and orders
--   Contracts/Bridge  contracts/bridge.rs: chains and assets; the transfers in Bridge/Transfers
--   Contracts/Nft     contracts/nft.rs; Contracts/PrivateToken contracts/private_token.rs
--   Sdk/Serial, Sdk/Examples  forms of values and a host for the tests of the contracts
--   Fixtures          concrete values for the tests; a `Tests` module stands beside each part
--
-- How the code is read. The build is the release profile of Cargo.toml, in which integer
-- arithmetic wraps: an operation on w bits is written with `% 2 ^ w`, and signed integers are
-- their bit patterns. A `RwLock` is taken and released inside one method, so a method is one step
-- on the record of its fields; where a lock is held over a call or a loop (the queue of
-- `TxBroadcaster`, the swarm), the record has a Boolean for it, and a call that waits for a lock
-- that is never released is a `deadlock`. A
-- `HashMap` is an association list whose order stands for an iteration order. Four loops run on
-- fuel: that of the Merkle root, for which the number of leaves is enough, since a round never
-- leaves more than half of them, rounded up; that of `sqrt` in the exchange, for which the argument
-- is enough, since each round lowers the estimate; that of `get_ancestors`, for which one more than
-- the number of edges is enough, since each edge is pushed once; and that of `topological_sort`, for
-- which the number of vertices is enough, since a degree falls to 0 once.
--
-- Parameters, since they are not code of the repository: SHA3-256 (`Hasher`: a function with 32
-- bytes of output), `bincode` (`Bincode`), secp256k1 (`Secp`), and the seeded shuffle of `rand`
-- (`Shuffle`); the channels of tokio; publishing on a topic, subscribing and a peer's id; what a
-- node is started with (`Surroundings`); hexadecimal and base 58 (`Encodings`); arkworks
-- (`PrimeField`, `Groth16`) and the decryption of ChaCha20-Poly1305; the LRU cache of the state
-- storage (`LruCache`) and its database (`Database`, which `MemoryDB` and `RocksDB` fill);
-- rocksdb (`RocksLibrary`); the host's storage (`Host`) and functions (`HostFunctions`), its
-- checks of proofs and signatures and its calls of tokens; serde_json (`Json`); and
-- `Address::hash`, which the sources call but do not define.
--
-- Not modelled: the lines that the command line prints whatever its arguments are; background
-- tasks, which only log; the load tests on `f64` of adaptive sharding and the `f64` of the node's
-- statistics; the Solidity contracts under contracts/.
pub mod Base
pub mod Types
pub mod Consensus
pub mod Vm
pub mod Multichain
pub mod Network
pub mod Node
pub mod Cli
pub mod Privacy
pub mod Sdk
pub mod Contracts
pub mod Storage
mod Fixtures
