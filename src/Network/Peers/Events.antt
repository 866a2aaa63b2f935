-- ===== src/Network/Peers/Events.antt =====
-- The events that `NetworkNode` of src/network/mod.rs handles, one after another.
use protonchain.Base.{
  ℕ, Option, ◌⊎◌, inl, inr, Option-cases, ◌≡◌, refl, Bool, true, false, List, [], ◌∷◌, none, some,
  ◌==◌, arith, Key, sym, ap, ◌∙◌, not, ◌&&◌, ◌||◌,
}
use protonchain.Base.HashMap
use protonchain.Base.HashMap.{HashMap, get-insert, get-remove}
use protonchain.Base.HashMap.Sum.{HasDistinctKeys, insert-HasDistinctKeys, remove-HasDistinctKeys}
use protonchain.Network.{NetworkMessage, Topic}
use protonchain.Network.Broadcast.{Call}
use protonchain.Network.Peers.{
  NetworkNode, SwarmEvent, gossiped, discovered, connection_established, connection_closed, other,
  handle_message, broadcast, send_to_peer, insert_peers, on_event, on_events, run_event_loop,
}

module _ {P : Type 0} ⦃e : Key P⦄ where
  abbrev mem : P → List P → Bool
  mem p [] = false
  mem p (q ∷ qs) = q == p || mem p qs

  -- whether the last event that names the peer was its discovery or a new connection
  abbrev pub last_seen : P → List (SwarmEvent P) → Bool → Bool
  last_seen p [] before = before
  last_seen p (gossiped _ ∷ events) before = last_seen p events before
  last_seen p (discovered list ∷ events) before = last_seen p events (mem p list || before)
  last_seen p (connection_established q ∷ events) before = last_seen p events (q == p || before)
  last_seen p (connection_closed q ∷ events) before = last_seen p events (not (q == p) && before)
  last_seen p (other ∷ events) before = last_seen p events before

  contains-insert :
      (p q : P) (m : HashMap P Bool)
      → HashMap.contains_key p (HashMap.insert q true m) ≡ (q == p || HashMap.contains_key p m)
  unfolding HashMap.contains_key
  contains-insert p q m = ground (arith, get-insert q p true m)

  contains-remove :
      (p q : P) (m : HashMap P Bool)
      → HashMap.contains_key p (HashMap.remove q m) ≡ (not (q == p) && HashMap.contains_key p m)
  unfolding HashMap.contains_key
  contains-remove p q m = ground (arith, get-remove q p m)

  contains-insert_peers :
      (p : P) (list : List P) (m : HashMap P Bool)
      → HashMap.contains_key p (insert_peers list m) ≡ (mem p list || HashMap.contains_key p m)
  unfolding insert_peers
  contains-insert_peers p [] m = refl
  contains-insert_peers p (q ∷ list) m =
      ground (arith, contains-insert_peers p list (HashMap.insert q true m), contains-insert p q m)

  insert_peers-HasDistinctKeys :
      (list : List P) (m : HashMap P Bool)
      → HasDistinctKeys m
      → HasDistinctKeys (insert_peers list m)
  unfolding insert_peers
  insert_peers-HasDistinctKeys [] m d = d
  insert_peers-HasDistinctKeys (q ∷ list) m d =
      insert_peers-HasDistinctKeys list (HashMap.insert q true m)
        (insert-HasDistinctKeys q true m d)

  -- what every event leaves as it is, or keeps
  record Kept (before after : NetworkNode P) : Type 0 where
    held : after.swarm_held ≡ before.swarm_held
    validators : after.validator_peers ≡ before.validator_peers
    distinct : HasDistinctKeys before.connected_peers → HasDistinctKeys after.connected_peers

  on_event-Kept : (event : SwarmEvent P) (node : NetworkNode P) → Kept node (on_event event node)
  unfolding on_event handle_message
  on_event-Kept (gossiped none) node = record { held = refl; validators = refl; distinct = λ d. d }
  on_event-Kept (gossiped (some msg)) node = record {
    held = refl;
    validators = refl;
    distinct = λ d. d;
  }
  on_event-Kept (discovered list) node = record {
    held = refl;
    validators = refl;
    distinct = insert_peers-HasDistinctKeys list node.connected_peers;
  }
  on_event-Kept (connection_established q) node = record {
    held = refl;
    validators = refl;
    distinct = insert-HasDistinctKeys q true node.connected_peers;
  }
  on_event-Kept (connection_closed q) node = record {
    held = refl;
    validators = refl;
    distinct = remove-HasDistinctKeys q node.connected_peers;
  }
  on_event-Kept other node = record { held = refl; validators = refl; distinct = λ d. d }

  on_events-Kept :
      (events : List (SwarmEvent P)) (node : NetworkNode P) → Kept node (on_events events node)
  unfolding on_events
  on_events-Kept [] node = record { held = refl; validators = refl; distinct = λ d. d }
  on_events-Kept (event ∷ events) node =
      let first = on_event-Kept event node in
      let rest = on_events-Kept events (on_event event node) in
      record {
        held = rest.held ∙ first.held;
        validators = rest.validators ∙ first.validators;
        distinct = λ d. rest.distinct (first.distinct d);
      }

  -- While another thread holds the lock on the swarm, only a failure to encode returns.
  send_to_peer-held :
      (serialize : NetworkMessage → Option (List ℕ)) (publish : Topic → List ℕ → Bool) (q : P)
      (msg : NetworkMessage) (node : NetworkNode P)
      → node.swarm_held ≡ true
      → ((serialize msg ≡ none)
          × (send_to_peer serialize publish q msg node ≡ Call.returns (false, [])))
        ⊎ ((bytes : List ℕ) × (serialize msg ≡ some bytes)
            × (send_to_peer serialize publish q msg node ≡ Call.deadlock))
  unfolding send_to_peer broadcast
  send_to_peer-held serialize publish q msg node held = elim (Option-cases (serialize msg)) [
    | inl failed ↦ inl (failed, ground arith)
    | inr (bytes, encoded) ↦ inr (bytes, encoded, ground arith)
  ]

  on_events-last_seen :
      (p : P) (events : List (SwarmEvent P)) (node : NetworkNode P)
      → HashMap.contains_key p (on_events events node).connected_peers
        ≡ last_seen p events (HashMap.contains_key p node.connected_peers)
  unfolding on_events on_event handle_message
  on_events-last_seen p [] node = refl
  on_events-last_seen p (gossiped none ∷ events) node = on_events-last_seen p events node
  on_events-last_seen p (gossiped (some msg) ∷ events) node = on_events-last_seen p events node
  on_events-last_seen p (discovered list ∷ events) node =
      on_events-last_seen p events _
      ∙ ap (last_seen p events) (contains-insert_peers p list node.connected_peers)
  on_events-last_seen p (connection_established q ∷ events) node =
      on_events-last_seen p events _
      ∙ ap (last_seen p events) (contains-insert p q node.connected_peers)
  on_events-last_seen p (connection_closed q ∷ events) node =
      on_events-last_seen p events _
      ∙ ap (last_seen p events) (contains-remove p q node.connected_peers)
  on_events-last_seen p (other ∷ events) node = on_events-last_seen p events node

  -- Whatever events the loop has handled, starting from a table with one entry for each peer: the
  -- table has a peer, once, just if the last event that names the peer is its discovery or a new
  -- connection, or if no event names it and the table had it before; the validators' peers are
  -- unchanged; and `send_to_peer` from another thread waits, for every peer and every message that
  -- bincode encodes, for the lock that the loop still holds, and returns an error for every other
  -- message.
  pub run_event_loop_lem :
      (serialize : NetworkMessage → Option (List ℕ)) (publish : Topic → List ℕ → Bool)
      (events : List (SwarmEvent P)) (p q : P) (msg : NetworkMessage) (node after : NetworkNode P)
      → HasDistinctKeys node.connected_peers
      → run_event_loop events node ≡ Call.returns after
      → (HashMap.contains_key p after.connected_peers
          ≡ last_seen p events (HashMap.contains_key p node.connected_peers))
        × HasDistinctKeys after.connected_peers
        × (after.validator_peers ≡ node.validator_peers)
        × (((serialize msg ≡ none)
              × (send_to_peer serialize publish q msg after ≡ Call.returns (false, [])))
            ⊎ ((bytes : List ℕ) × (serialize msg ≡ some bytes)
                × (send_to_peer serialize publish q msg after ≡ Call.deadlock)))
  unfolding run_event_loop
  run_event_loop_lem serialize publish events p q msg node after d e =
      let inner = record node { swarm_held = true } in
      let eq : on_events events inner ≡ after = ground arith in
      let kept = on_events-Kept events inner in
      rw (sym eq) (
        on_events-last_seen p events inner,
        kept.distinct d,
        kept.validators,
        send_to_peer-held serialize publish q msg (on_events events inner) kept.held,
      )
