-- ===== src/Consensus/Engine/Validation.antt =====
-- What `validate_block` accepts.
use mathlib.Core.List.{map-append}
use protonchain.Base.{
  ℕ, suc, ◌-◌, ◌*◌, ◌≡◌, ◌↔◌, ◌⊎◌, inl, inr, sym, ap, ◌∙◌, true, none, some, List, [], ◌∷◌, ◌++◌,
  map, arith, nat_key, All, length, length-map, Option-cases,
}
use protonchain.Base.HashMap
use protonchain.Types.{
  Hasher, Bincode, Transaction, Block, hash_key, same_hash_iff, address_key, same_address_iff,
  transaction_hash, header_hash, digest,
}
use protonchain.Types.Merkle.{root}
use protonchain.Types.Merkle.Shape.{root_repeat_last}
use protonchain.Types.Merkle.Collision.{IsFull, Collides, root_inputs, root_binding}
use protonchain.Consensus.Validators.{Secp, Validator, get_leader, get_validator, verify_signature}
use protonchain.Consensus.Engine.{
  Engine, transactions_root, has_parent, is_from_leader, is_signed, validate_block,
}

module _ ⦃h : Hasher⦄ ⦃b : Bincode⦄ ⦃s : Secp⦄ where
  -- What a block has to meet.
  pub record IsAcceptable (engine : Engine) (block : Block) : Type 0 where
    pub parent :
        (block.header.height ≡ 0)
        ⊎ ((p : Block) × (HashMap.get (block.header.height - 1) engine.blocks ≡ some p))
    pub merkle : transactions_root block.transactions ≡ block.header.merkle_root
    pub leader :
        (get_leader engine.validator_set block.header.height ≡ none)
        ⊎ (get_leader engine.validator_set block.header.height ≡ some block.header.validator)
    pub signed :
        (get_validator engine.validator_set block.header.validator ≡ none)
        ⊎ ((v : Validator) × (get_validator engine.validator_set block.header.validator ≡ some v)
            × (verify_signature v (header_hash block.header) block.header.signature ≡ true))

  has_parent_iff :
      (engine : Engine) (block : Block)
      → (has_parent engine block ≡ true) ↔ (
          (block.header.height ≡ 0)
          ⊎ ((p : Block) × (HashMap.get (block.header.height - 1) engine.blocks ≡ some p)))
  unfolding has_parent HashMap.contains_key
  has_parent_iff engine block =
      elim (Option-cases (HashMap.get (block.header.height - 1) engine.blocks)) [
        | inl missing ↦ ground arith
        | inr (p, here) ↦ ((λ _. inr (p, here)), λ _. ground arith)
      ]

  is_from_leader_iff :
      (engine : Engine) (block : Block)
      → (is_from_leader engine block ≡ true) ↔ (
          (get_leader engine.validator_set block.header.height ≡ none)
          ⊎ (get_leader engine.validator_set block.header.height ≡ some block.header.validator))
  unfolding is_from_leader
  is_from_leader_iff engine block =
      elim (Option-cases (get_leader engine.validator_set block.header.height)) [
        | inl missing ↦ ground arith
        | inr (leader, here) ↦ ground (arith, same_address_iff leader block.header.validator)
      ]

  is_signed_iff :
      (engine : Engine) (block : Block)
      → (is_signed engine block ≡ true) ↔ (
          (get_validator engine.validator_set block.header.validator ≡ none)
          ⊎ ((v : Validator) × (get_validator engine.validator_set block.header.validator ≡ some v)
              × (verify_signature v (header_hash block.header) block.header.signature ≡ true)))
  unfolding is_signed
  is_signed_iff engine block =
      elim (Option-cases (get_validator engine.validator_set block.header.validator)) [
        | inl missing ↦ ((λ _. inl missing), λ _. ground arith)
        | inr (v, here) ↦ ((λ e. inr (v, here, ground arith)), λ a. ground arith)
      ]

  validate_block-true :
      (engine : Engine) (block : Block)
      → (validate_block engine block ≡ true) ↔ (
          (has_parent engine block ≡ true)
          × (transactions_root block.transactions ≡ block.header.merkle_root)
          × (is_from_leader engine block ≡ true)
          × (is_signed engine block ≡ true))
  unfolding validate_block
  validate_block-true engine block =
      ground (arith, same_hash_iff (transactions_root block.transactions) block.header.merkle_root)

  -- `validate_block` accepts a block exactly when: it has height 0 or a stored block is one height
  -- below it; its Merkle root is that of its transactions; there is no leader at its height, or
  -- the leader is its validator; and its validator is unknown or has signed its header.
  pub validate_block_iff :
      (engine : Engine) (block : Block)
      → (validate_block engine block ≡ true) ↔ IsAcceptable engine block
  validate_block_iff engine block = (
    (λ e.
        let (p, m, l, g) = (validate_block-true engine block).0 e in
        record {
          parent = (has_parent_iff engine block).0 p;
          merkle = m;
          leader = (is_from_leader_iff engine block).0 l;
          signed = (is_signed_iff engine block).0 g;
        }),
    λ a. (validate_block-true engine block).1 (
      (has_parent_iff engine block).1 a.parent,
      a.merkle,
      (is_from_leader_iff engine block).1 a.leader,
      (is_signed_iff engine block).1 a.signed,
    ),
  )

  hashes-IsFull : (txs : List Transaction) → All IsFull (map transaction_hash txs)
  unfolding transaction_hash digest
  hashes-IsFull [] = tt
  hashes-IsFull (tx ∷ txs) = (h.sha3_length _, hashes-IsFull txs)

  -- Two blocks with equally many transactions and one Merkle root in their headers that are both
  -- accepted, by whatever nodes, have the same transaction hashes in the same order, or else the
  -- computations of the two blocks' Merkle roots hash, for some node of the tree, two different
  -- inputs that have one digest.
  pub validate_block_binding :
      (engine engine' : Engine) (block block' : Block)
      → validate_block engine block ≡ true
      → validate_block engine' block' ≡ true
      → block.header.merkle_root ≡ block'.header.merkle_root
      → length block.transactions ≡ length block'.transactions
      → (map transaction_hash block.transactions ≡ map transaction_hash block'.transactions)
        ⊎ Collides
            (root_inputs (map transaction_hash block.transactions))
            (root_inputs (map transaction_hash block'.transactions))
  validate_block_binding engine engine' block block' v v' same l =
      root_binding (map transaction_hash block.transactions)
        (map transaction_hash block'.transactions)
        (omega (
          arith,
          length-map transaction_hash block.transactions,
          length-map transaction_hash block'.transactions,
        ))
        (hashes-IsFull block.transactions) (hashes-IsFull block'.transactions)
        (((validate_block_iff engine block).0 v).merkle
          ∙ same
          ∙ sym ((validate_block_iff engine' block').0 v').merkle)

  -- The verdict on a block with an odd number of transactions, three or more, is the verdict on
  -- the block in which the last transaction stands once more, under the same header.
  pub validate_block-repeat_last :
      (engine : Engine) (block : Block) (k : ℕ) (txs : List Transaction) (last : Transaction)
      → block.transactions ≡ txs ++ last ∷ []
      → length txs ≡ 2 * suc k
      → validate_block engine (record block { transactions = txs ++ last ∷ last ∷ [] })
        ≡ validate_block engine block
  unfolding validate_block has_parent is_from_leader is_signed
  validate_block-repeat_last engine block k txs last e l =
      let root_eq : transactions_root (txs ++ last ∷ last ∷ [])
          ≡ transactions_root block.transactions =
        ap root (map-append _ txs (last ∷ last ∷ []))
        ∙ sym (
            root_repeat_last k (map transaction_hash txs) (transaction_hash last)
              (omega (arith, length-map transaction_hash txs)))
        ∙ sym (ap root (map-append _ txs (last ∷ [])))
        ∙ ap transactions_root (sym e) in
      rw root_eq
