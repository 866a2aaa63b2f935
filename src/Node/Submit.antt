-- ===== src/Node/Submit.antt =====
-- `submit_transaction` of src/lib.rs: what it changes.
use protonchain.Base.{
  ℕ, ◌≡◌, refl, sym, none, some, false, eqb, if◌then◌else◌, arith, ◌==◌, nat_key, Option-cases, inl,
  inr, ◌⊎◌, subst, ltb, ◌&&◌, ◌%◌, leb, length, Bool-cases,
}
use protonchain.Base.HashMap
use protonchain.Base.HashMap.{get-insert, get-insert_self}
use protonchain.Base.HashMap.Sum.{length-insert}
use protonchain.Types.{Hash, Hasher, Bincode, Address, Transaction, transaction_hash, hash_key}
use protonchain.Consensus.Mempool
use protonchain.Consensus.Mempool.{AddResult, enter}
use protonchain.Multichain.Shards.{
  Shard, ShardManager, Routed, enter_shard, route_transaction, first_two,
}
use protonchain.Multichain.Routing.{chosen, taken_by}
use protonchain.Node.{ProtonNode, Submitted, submit_transaction}
use protonchain.Privacy.Circuit.{PrimeField}
use protonchain.Privacy.Proofs.{Groth16}

module _ ⦃h : Hasher⦄ ⦃b : Bincode⦄ where
  -- the shard with the transaction in its mempool
  abbrev pub with_tx : Transaction → Shard → Shard
  with_tx tx shard = record shard {
    config = record (shard.config) {
      consensus = record (shard.config.consensus) {
        mempool = enter (transaction_hash tx) tx shard.config.consensus.mempool;
      };
    };
  }

-- The shard of the number has entered the transaction in its mempool, where it stands under its hash;
-- all other shards are as before.
pub record IsEntered ⦃h : Hasher⦄ ⦃b : Bincode⦄ {S : Type 0} (tx : Transaction) (id : ℕ)
    (before after : ShardManager S) : Type 0 where
  pub old : Shard
  pub shard : Shard
  pub there : HashMap.get id before.shards ≡ some old
  pub entered : shard ≡ with_tx tx old
  pub found : HashMap.get id after.shards ≡ some shard
  pub held : HashMap.get (transaction_hash tx) shard.config.consensus.mempool.transactions ≡ some tx
  pub same : (j : ℕ) → (id == j) ≡ false → HashMap.get j after.shards ≡ HashMap.get j before.shards
  pub size : length after.shards ≡ length before.shards
  pub rest : after ≡ record before { shards = after.shards }

module _ ⦃h : Hasher⦄ ⦃b : Bincode⦄ {S : Type 0} where
  with_tx-IsEntered :
      (tx : Transaction) (id : ℕ) (shard : Shard) (before : ShardManager S)
      → HashMap.get id before.shards ≡ some shard
      → IsEntered tx id before
          (record before { shards = HashMap.insert id (with_tx tx shard) before.shards })
  unfolding HashMap.contains_key
  with_tx-IsEntered tx id shard before there = record {
    old = shard;
    shard = with_tx tx shard;
    there = there;
    entered = refl;
    found = get-insert_self id (with_tx tx shard) before.shards;
    held = get-insert_self (transaction_hash tx) tx shard.config.consensus.mempool.transactions;
    same = λ j ne. ground (arith, get-insert id j (with_tx tx shard) before.shards);
    size = ground (arith, length-insert id (with_tx tx shard) before.shards, there);
    rest = refl;
  }

  enter_shard-room :
      (tx : Transaction) (id : ℕ) (shard : Shard) (manager : ShardManager S)
      → HashMap.get id manager.shards ≡ some shard
      → enter_shard tx id manager ≡ (
          if leb shard.config.consensus.mempool.max_size
            (length shard.config.consensus.mempool.transactions)
          then Routed.refused_full
          else Routed.routed id
              (record manager { shards = HashMap.insert id (with_tx tx shard) manager.shards }))
  unfolding enter_shard Mempool.add_transaction
  enter_shard-room tx id shard manager found =
      let pool = shard.config.consensus.mempool in
      rw (found, enter_shard)
        (elim (Bool-cases (leb pool.max_size (length pool.transactions))) [
          | inl full ↦ rw full refl
          | inr room ↦ rw room refl
        ])

  enter_shard-IsEntered :
      (tx : Transaction) (id k : ℕ) (before after : ShardManager S)
      → enter_shard tx id before ≡ Routed.routed k after
      → (id ≡ k) × IsEntered tx id before after
  unfolding enter_shard
  enter_shard-IsEntered tx id k before after e =
      elim (Option-cases (HashMap.get id before.shards)) [
        | inl absent ↦ absurd (ground arith)
        | inr (shard, found) ↦
            let next = record before {
              shards = HashMap.insert id (with_tx tx shard) before.shards;
            } in
            let step = enter_shard-room tx id shard before found in
            let eqs : (id ≡ k) × (next ≡ after) = ground (arith, step, e) in
            (
              eqs.0,
              subst (IsEntered tx id before) eqs.1 (with_tx-IsEntered tx id shard before found),
            )
      ]

  route_transaction-IsEntered :
      (address_hash : Address → Hash) (tx : Transaction) (k : ℕ) (before after : ShardManager S)
      → route_transaction address_hash tx before ≡ Routed.routed k after
      → (chosen address_hash before.config.shard_count tx ≡ k)
        × IsEntered tx (chosen address_hash before.config.shard_count tx) before after
  unfolding route_transaction
  route_transaction-IsEntered address_hash tx k before after e =
      let count = before.config.shard_count in
      elim (Bool-cases (ltb 0 tx.shard_id && ltb tx.shard_id count)) [
        | inl named ↦
            let taken : enter_shard tx tx.shard_id before ≡ Routed.routed k after = ground arith in
            rw named (enter_shard-IsEntered tx tx.shard_id k before after taken)
        | inr unnamed ↦ elim (Bool-cases (eqb count 0)) [
          | inl none_there ↦ absurd (ground arith)
          | inr some_there ↦
              let id = first_two (address_hash tx.from) % count in
              let taken : enter_shard tx id before ≡ Routed.routed k after = ground arith in
              rw unnamed (enter_shard-IsEntered tx id k before after taken)
        ]
      ]

-- whether a transaction was routed, and to where
pub Routed-cases :
    {S : Type 0} (r : Routed S)
    → ((k : ℕ) × (manager : ShardManager S) × (r ≡ Routed.routed k manager)) ⊎ (taken_by r ≡ none)
Routed-cases (Routed.routed k manager) = inl (k, manager, refl)
Routed-cases Routed.refused_full = inr refl
Routed-cases Routed.refused_no_shard = inr refl
Routed-cases Routed.panicked = inr refl

module _ ⦃field : PrimeField⦄ ⦃groth : Groth16⦄ ⦃h : Hasher⦄ ⦃b : Bincode⦄ {S D C P : Type 0} where
  -- A transaction that `submit_transaction` takes is answered with its hash, and enters the mempool
  -- of the shard it names, or of the shard that its sender's hash selects. Nothing else of the node
  -- changes: no other shard, neither its own consensus and mempool, nor its accounts and storage.
  pub submit_transaction-IsEntered :
      (address_hash : Address → Hash) (tx : Transaction) (hash : Hash)
      (node next : ProtonNode S D C P)
      → submit_transaction address_hash tx node ≡ Submitted.submitted hash next
      → (hash ≡ transaction_hash tx)
        × IsEntered tx
            (chosen address_hash node.shard_manager.config.shard_count tx)
            node.shard_manager
            next.shard_manager
        × (next ≡ record node { shard_manager = next.shard_manager })
  unfolding submit_transaction
  submit_transaction-IsEntered address_hash tx hash node next e =
      elim (Routed-cases (route_transaction address_hash tx node.shard_manager)) [
        | inl (k, manager, took) ↦
            let entered =
              route_transaction-IsEntered address_hash tx k node.shard_manager manager took in
            let eqs : (transaction_hash tx ≡ hash)
                × (record node { shard_manager = manager } ≡ next) =
              ground (arith, took, e) in
            rw (sym eqs.1) (sym eqs.0, entered.1, refl)
        | inr not_taken ↦ absurd (ground arith)
      ]
