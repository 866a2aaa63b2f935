-- ===== src/Network/Peers.antt =====
-- `NetworkNode` of src/network/mod.rs: its peers, its events, and the lock on its swarm. A peer's id
-- `P`, listening and subscribing are libp2p's. `swarm_held` says that a thread holds the lock on the
-- swarm: `run_event_loop` takes it for all its rounds, and the other methods wait for it.
pub mod Events
use protonchain.Base.{
  ℕ, ◌≡◌, refl, Bool, true, false, List, [], ◌∷◌, ◌++◌, Option, none, some, ◌==◌, arith, ltb,
  length, Key, if◌then◌else◌, sym, ap, ◌∙◌, not, ◌&&◌, ◌||◌,
}
use protonchain.Base.HashMap
use protonchain.Base.HashMap.{HashMap, get-insert, get-remove}
use protonchain.Base.HashMap.Sum.{HasDistinctKeys, insert-HasDistinctKeys, remove-HasDistinctKeys}
use protonchain.Types.{Address, address_key}
use protonchain.Network.{NetworkMessage, Topic, topic_of, subscribed}
use protonchain.Network.Broadcast.{Call}

pub record NetworkNode (P : Type 0) : Type 0 where
  pub local_peer_id : P
  pub swarm_held : Bool
  pub connected_peers : HashMap P Bool
  pub validator_peers : HashMap Address P
  pub my_address : Address
  pub shard_id : ℕ

-- The events that `run_event_loop` tells apart. A gossiped message is `none` if bincode refuses it.
pub data SwarmEvent (P : Type 0) : Type 0 where
  gossiped : Option NetworkMessage → SwarmEvent P
  discovered : List P → SwarmEvent P
  connection_established : P → SwarmEvent P
  connection_closed : P → SwarmEvent P
  other : SwarmEvent P

pub record NetworkStats : Type 0 where
  pub peer_count : ℕ
  pub validator_count : ℕ
  pub is_connected : Bool

-- the subscriptions of `start`, up to the first that fails
unfoldable pub subscribe_all : (Topic → Bool) → List Topic → Bool × List Topic
subscribe_all subscribe [] = (true, [])
subscribe_all subscribe (topic ∷ topics) =
    let (all, rest) = subscribe_all subscribe topics in
    if subscribe topic then (all, topic ∷ rest) else (false, [])

module _ {P : Type 0} where
  -- the record that `NetworkNode::new` makes once libp2p has set up the swarm
  abbrev pub new_network : P → Address → ℕ → NetworkNode P
  new_network local_peer_id my_address shard_id = record {
    local_peer_id = local_peer_id;
    swarm_held = false;
    connected_peers = [];
    validator_peers = [];
    my_address = my_address;
    shard_id = shard_id;
  }

  -- `start`: whether it is `Ok`, and the topics subscribed to
  unfoldable pub start : Bool → (Topic → Bool) → NetworkNode P → Call (Bool × List Topic)
  unfolding subscribe_all
  start listens subscribe node =
      if node.swarm_held
      then Call.deadlock
      else Call.returns (if listens then subscribe_all subscribe subscribed else (false, []))

  -- `handle_message`: each of its arms logs, or does nothing
  unfoldable pub handle_message : NetworkMessage → NetworkNode P → NetworkNode P
  handle_message msg node = node

  -- `peer_count` and `get_stats`
  unfoldable pub peer_count : NetworkNode P → ℕ
  peer_count node = length node.connected_peers

  unfoldable pub get_stats : NetworkNode P → NetworkStats
  unfolding peer_count
  get_stats node = record {
    peer_count = peer_count node;
    validator_count = length node.validator_peers;
    is_connected = ltb 0 (peer_count node);
  }

  -- `register_validator`
  unfoldable pub register_validator : Address → P → NetworkNode P → NetworkNode P
  register_validator address peer node = record node {
    validator_peers = HashMap.insert address peer node.validator_peers;
  }

  -- `broadcast`: whether it is `Ok`, and what goes out. The message is encoded first, and only then
  -- is the lock on the swarm taken.
  unfoldable pub broadcast :
      (NetworkMessage → Option (List ℕ))
      → (Topic → List ℕ → Bool)
      → NetworkMessage
      → NetworkNode P
      → Call (Bool × List (Topic × NetworkMessage))
  unfolding topic_of
  broadcast serialize publish msg node = elim (serialize msg) [
    | none ↦ Call.returns (false, [])
    | some bytes ↦
        if node.swarm_held
        then Call.deadlock
        else Call.returns
            (if publish (topic_of msg) bytes then (true, (topic_of msg, msg) ∷ []) else (false, []))
  ]

  -- `send_to_peer`
  unfoldable pub send_to_peer :
      (NetworkMessage → Option (List ℕ))
      → (Topic → List ℕ → Bool)
      → P
      → NetworkMessage
      → NetworkNode P
      → Call (Bool × List (Topic × NetworkMessage))
  unfolding broadcast
  send_to_peer serialize publish peer msg node = broadcast serialize publish msg node

module _ {P : Type 0} ⦃e : Key P⦄ where
  -- `for (peer_id, multiaddr) in list`
  unfoldable pub insert_peers : List P → HashMap P Bool → HashMap P Bool
  insert_peers [] peers = peers
  insert_peers (peer ∷ list) peers = insert_peers list (HashMap.insert peer true peers)

  -- one round of `run_event_loop`
  unfoldable pub on_event : SwarmEvent P → NetworkNode P → NetworkNode P
  unfolding insert_peers handle_message
  on_event (gossiped none) node = node
  on_event (gossiped (some msg)) node = handle_message msg node
  on_event (discovered list) node = record node {
    connected_peers = insert_peers list node.connected_peers;
  }
  on_event (connection_established peer) node = record node {
    connected_peers = HashMap.insert peer true node.connected_peers;
  }
  on_event (connection_closed peer) node = record node {
    connected_peers = HashMap.remove peer node.connected_peers;
  }
  on_event other node = node

  unfoldable pub on_events : List (SwarmEvent P) → NetworkNode P → NetworkNode P
  unfolding on_event
  on_events [] node = node
  on_events (event ∷ events) node = on_events events (on_event event node)

  -- `run_event_loop`, up to the last of the events: the loop still runs and has the lock
  unfoldable pub run_event_loop : List (SwarmEvent P) → NetworkNode P → Call (NetworkNode P)
  unfolding on_events
  run_event_loop events node =
      if node.swarm_held
      then Call.deadlock
      else Call.returns (on_events events (record node { swarm_held = true }))
