-- ===== src/Network/Broadcast.antt =====
-- `TxBroadcaster` of src/network/mod.rs. The broadcaster's network is the function that
-- `NetworkNode::broadcast` is on it. A broadcast returns, or waits for a lock.
use protonchain.Base.{
  leb, zero, suc, ◌⊎◌, append-nil, ℕ, ◌+◌, ◌≡◌, ◌≤◌, ◌<◌, refl, ap, Bool, true, false, List, [],
  ◌∷◌, ◌++◌, ltb, length, length-append, append_assoc, arith, if◌then◌else◌, inl, inr, Bool-cases,
}
use protonchain.Types.{Transaction}
use protonchain.Network.{NetworkMessage, Topic}

-- `pending_held`: a thread holds the lock on `pending_txs`
pub record TxBroadcaster : Type 0 where
  pub batch_size : ℕ
  pub batch_timeout_ms : ℕ
  pub pending_held : Bool
  pub pending_txs : List Transaction

-- what a call comes to
pub data Call (A : Type 0) : Type 0 where
  returns : A → Call A
  deadlock : Call A

-- what a call of the broadcaster returns: its state, and what goes out
abbrev pub Sent : Type 0
Sent = Call (TxBroadcaster × List (Topic × NetworkMessage))

-- `new`, and `clone`, which drops what is pending and has a lock of its own
abbrev pub new_broadcaster : ℕ → ℕ → TxBroadcaster
new_broadcaster batch_size batch_timeout_ms = record {
  batch_size = batch_size;
  batch_timeout_ms = batch_timeout_ms;
  pending_held = false;
  pending_txs = [];
}

abbrev pub clone_broadcaster : TxBroadcaster → TxBroadcaster
clone_broadcaster b = new_broadcaster b.batch_size b.batch_timeout_ms

-- the message of `flush`, with the shard of the first transaction
abbrev pub batch_message : Transaction → List Transaction → NetworkMessage
batch_message tx txs = NetworkMessage.transaction_batch (tx ∷ txs) tx.shard_id

-- the end of the guard's scope, where the lock is released
abbrev pub unlock : Sent → Sent
unlock Call.deadlock = Call.deadlock
unlock (Call.returns (b, out)) = Call.returns (record b { pending_held = false }, out)

module _ (broadcast : NetworkMessage → Call (Bool × List (Topic × NetworkMessage))) where
  -- `flush`, which waits while the lock is held. It has the lock until it returns, and ignores what
  -- the broadcast answers.
  unfoldable pub flush : TxBroadcaster → Sent
  flush b = if b.pending_held then Call.deadlock else elim b.pending_txs [
    | [] ↦ Call.returns (b, [])
    | tx ∷ txs ↦ elim (broadcast (batch_message tx txs)) [
      | Call.deadlock ↦ Call.deadlock
      | Call.returns (ok, out) ↦ Call.returns (record b { pending_txs = [] }, out)
    ]
  ]

  -- `queue_transaction`: the guard of the lock lives to the end of the method, over the call of
  -- `flush`
  unfoldable pub queue_transaction : Transaction → TxBroadcaster → Sent
  unfolding flush
  queue_transaction tx b =
      let locked = record b { pending_held = true; pending_txs = b.pending_txs ++ tx ∷ [] } in
      if b.pending_held
      then Call.deadlock
      else unlock (
          if leb locked.batch_size (length locked.pending_txs)
          then flush locked
          else Call.returns (locked, []))

  -- one transaction after another, and all that goes out
  unfoldable pub queue_all : List Transaction → TxBroadcaster → Sent
  unfolding queue_transaction
  queue_all [] b = Call.returns (b, [])
  queue_all (tx ∷ txs) b = elim (queue_transaction tx b) [
    | Call.deadlock ↦ Call.deadlock
    | Call.returns (b', out) ↦ elim (queue_all txs b') [
      | Call.deadlock ↦ Call.deadlock
      | Call.returns (b'', rest) ↦ Call.returns (b'', out ++ rest)
    ]
  ]

  -- rounds of a timer that flushes
  unfoldable pub ticks : ℕ → TxBroadcaster → Sent
  unfolding flush
  ticks zero b = Call.returns (b, [])
  ticks (suc rounds) b = elim (flush b) [
    | Call.deadlock ↦ Call.deadlock
    | Call.returns (b', out) ↦ elim (ticks rounds b') [
      | Call.deadlock ↦ Call.deadlock
      | Call.returns (b'', rest) ↦ Call.returns (b'', out ++ rest)
    ]
  ]

  -- the task of `start_batch_timer` after some rounds. Its broadcaster is a clone.
  unfoldable pub batch_timer : ℕ → TxBroadcaster → Sent
  unfolding ticks
  batch_timer rounds b = ticks rounds (clone_broadcaster b)

  queue_transaction-room :
      (tx : Transaction) (b : TxBroadcaster)
      → b.pending_held ≡ false
      → length b.pending_txs + 1 < b.batch_size
      → queue_transaction tx b
        ≡ Call.returns
            (record b { pending_held = false; pending_txs = b.pending_txs ++ tx ∷ [] }, [])
  unfolding queue_transaction
  queue_transaction-room tx b free room =
      let low : leb b.batch_size (length b.pending_txs + 1) ≡ false = ground arith in
      rw (length-append b.pending_txs (tx ∷ []), low, free) refl

  -- The call that fills a batch waits for the lock that it holds itself.
  queue_transaction-full :
      (tx : Transaction) (b : TxBroadcaster)
      → b.batch_size ≤ length b.pending_txs + 1
      → queue_transaction tx b ≡ Call.deadlock
  unfolding queue_transaction flush
  queue_transaction-full tx b full =
      let high : leb b.batch_size (length b.pending_txs + 1) ≡ true = ground arith in
      elim (Bool-cases b.pending_held) [
        | inl held ↦ rw held refl
        | inr free ↦ rw (length-append b.pending_txs (tx ∷ []), high, free) refl
      ]

  -- Fewer transactions than a batch are queued in their order.
  pub queue_all-room :
      (txs : List Transaction) (b : TxBroadcaster)
      → b.pending_held ≡ false
      → length b.pending_txs + length txs < b.batch_size
      → queue_all txs b
        ≡ Call.returns (record b { pending_held = false; pending_txs = b.pending_txs ++ txs }, [])
  unfolding queue_all
  queue_all-room [] b free room = rw (append-nil b.pending_txs, ← free) refl
  queue_all-room (tx ∷ txs) b free room =
      let b' = record b { pending_held = false; pending_txs = b.pending_txs ++ tx ∷ [] } in
      let longer = length-append b.pending_txs (tx ∷ []) in
      let rest = queue_all-room txs b' refl (omega (arith, longer)) in
      rw (queue_all, queue_transaction-room tx b free (omega arith), rest)
        (ap (λ t. Call.returns (record b { pending_held = false; pending_txs = t }, []))
          (append_assoc b.pending_txs (tx ∷ []) txs))

  -- As soon as a batch is full, the call that fills it never returns: it waits for the lock that it
  -- holds.
  pub queue_all-full :
      (txs : List Transaction) (b : TxBroadcaster)
      → b.pending_held ≡ false
      → length b.pending_txs < b.batch_size
      → b.batch_size ≤ length b.pending_txs + length txs
      → queue_all txs b ≡ Call.deadlock
  unfolding queue_all
  queue_all-full [] b free low full = absurd (omega arith)
  queue_all-full (tx ∷ txs) b free low full =
      elim (Bool-cases (ltb (length b.pending_txs + 1) b.batch_size)) [
        | inl room ↦
            let b' = record b { pending_held = false; pending_txs = b.pending_txs ++ tx ∷ [] } in
            let longer = length-append b.pending_txs (tx ∷ []) in
            let fits : length b.pending_txs + 1 < b.batch_size = ground arith in
            let rest = queue_all-full txs b' refl (omega (arith, longer)) (omega (arith, longer)) in
            rw (queue_all, queue_transaction-room tx b free fits, rest) refl
        | inr filled ↦
            let over : b.batch_size ≤ length b.pending_txs + 1 = ground arith in
            rw (queue_all, queue_transaction-full tx b over) refl
      ]

  ticks-new_broadcaster :
      (rounds batch_size batch_timeout_ms : ℕ)
      → let b = new_broadcaster batch_size batch_timeout_ms in ticks rounds b ≡ Call.returns (b, [])
  unfolding ticks flush
  ticks-new_broadcaster zero batch_size batch_timeout_ms = refl
  ticks-new_broadcaster (suc rounds) batch_size batch_timeout_ms =
      rw (ticks-new_broadcaster rounds batch_size batch_timeout_ms) refl

  -- For a broadcaster whose lock is free and whose queue is shorter than a batch, and without a
  -- direct call of `flush`, nothing that is queued goes out: the timer sends nothing in any number
  -- of rounds and finds its own queue empty, since it flushes a clone; as long as the transactions
  -- that are queued one after another do not fill a batch, they stay in the queue in their order and
  -- nothing is sent; and if they fill it, a call never returns, since it waits for the lock that it
  -- holds.
  pub queue_all-batch_timer :
      (rounds : ℕ) (txs : List Transaction) (b : TxBroadcaster)
      → b.pending_held ≡ false
      → length b.pending_txs < b.batch_size
      → (batch_timer rounds b ≡ Call.returns (clone_broadcaster b, []))
        × (((length b.pending_txs + length txs < b.batch_size)
              × (queue_all txs b
                  ≡ Call.returns
                      (record b { pending_held = false; pending_txs = b.pending_txs ++ txs }, [])))
            ⊎ ((b.batch_size ≤ length b.pending_txs + length txs)
                × (queue_all txs b ≡ Call.deadlock)))
  unfolding batch_timer
  queue_all-batch_timer rounds txs b free low = (
    ticks-new_broadcaster rounds b.batch_size b.batch_timeout_ms,
    elim (Bool-cases (ltb (length b.pending_txs + length txs) b.batch_size)) [
      | inl room ↦ inl (ground arith, queue_all-room txs b free (ground arith))
      | inr full ↦ inr (ground arith, queue_all-full txs b free low (ground arith))
    ],
  )
