-- ===== src/Network/Tests.antt =====
-- The network's queues on concrete values.
use protonchain.Base.HashMap
use protonchain.Base.HashMap.Sum.{HasDistinctKeys}
use protonchain.Network.{NetworkMessage, Topic, topic_of}
use protonchain.Types.{Transaction}
use protonchain.Network.Peers.{
  NetworkNode, SwarmEvent, connection_established, connection_closed, discovered, new_network,
  run_event_loop, send_to_peer, broadcast,
}
use protonchain.Network.Peers.Events.{run_event_loop_lem}
use protonchain.Base.{
  Option, some, none, Bool, ◌⊎◌, ◌<◌, ◌≤◌, refl, ℕ, List, false, nat_key, ◌≡◌, true, [], ◌∷◌, arith,
}
use protonchain.Fixtures.{transaction, address}
use protonchain.Network.Broadcast.{
  Call, new_broadcaster, queue_all, queue_all-batch_timer, batch_timer, flush,
}

-- A codec that encodes pings only, and a swarm that takes everything.
abbrev pings_only : NetworkMessage → Option (List ℕ)
pings_only (NetworkMessage.ping n) = some (n ∷ [])
pings_only _ = none

abbrev all_messages : NetworkMessage → Option (List ℕ)
all_messages msg = some []

-- `NetworkNode::broadcast` on a node whose swarm is free
abbrev free_broadcast : NetworkMessage → Call (Bool × List (Topic × NetworkMessage))
free_broadcast msg =
    broadcast all_messages (λ topic bytes. true) msg (new_network {P = ℕ} 1 (address 1) 0)

abbrev one_and_two : List Transaction
one_and_two = transaction 0 5 ∷ transaction 1 5 ∷ []

-- With batches of two, the second transaction is never queued.
queue_all-batch_timer_example :
    (batch_timer free_broadcast 3 (new_broadcaster 2 100)
      ≡ Call.returns (new_broadcaster 2 100, []))
    × (((2 < 2)
          × (queue_all free_broadcast one_and_two (new_broadcaster 2 100)
              ≡ Call.returns (record (new_broadcaster 2 100) { pending_txs = one_and_two }, [])))
        ⊎ ((2 ≤ 2)
            × (queue_all free_broadcast one_and_two (new_broadcaster 2 100) ≡ Call.deadlock)))
queue_all-batch_timer_example =
    queue_all-batch_timer free_broadcast 3 one_and_two (new_broadcaster 2 100) refl (omega arith)

-- A direct call of `flush` sends the queue as one message.
flush_sends :
    flush free_broadcast (record (new_broadcaster 9 100) { pending_txs = one_and_two })
    ≡ Call.returns (
      new_broadcaster 9 100,
      (Topic.transactions, NetworkMessage.transaction_batch one_and_two 0) ∷ [],
    )
unfolding flush broadcast topic_of
flush_sends = refl

-- A peer with two connections, one of which closes, is no longer counted.
abbrev two_events : List (SwarmEvent ℕ)
two_events =
    connection_established 7
    ∷ connection_established 7
    ∷ discovered (8 ∷ [])
    ∷ connection_closed 7
    ∷ []

abbrev running : NetworkNode ℕ
running = record (new_network 1 (address 1) 0) {
  swarm_held = true;
  connected_peers = (8, true) ∷ [];
}

run_two_events : run_event_loop two_events (new_network 1 (address 1) 0) ≡ Call.returns running
unfolding run_event_loop HashMap.insert HashMap.remove
run_two_events = refl

run_event_loop_lem_example :
    (HashMap.contains_key 7 running.connected_peers ≡ false)
    × HasDistinctKeys running.connected_peers
    × (running.validator_peers ≡ [])
    × (((pings_only (NetworkMessage.ping 5) ≡ none)
          × (send_to_peer pings_only (λ topic bytes. true) 8 (NetworkMessage.ping 5) running
              ≡ Call.returns (false, [])))
        ⊎ ((bytes : List ℕ) × (pings_only (NetworkMessage.ping 5) ≡ some bytes)
            × (send_to_peer pings_only (λ topic bytes. true) 8 (NetworkMessage.ping 5) running
                ≡ Call.deadlock)))
unfolding HashMap.contains_key HashMap.get
run_event_loop_lem_example =
    run_event_loop_lem pings_only (λ topic bytes. true) two_events 7 8 (NetworkMessage.ping 5)
      (new_network 1 (address 1) 0) running tt run_two_events
