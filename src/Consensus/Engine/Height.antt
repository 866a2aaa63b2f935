-- ===== src/Consensus/Engine/Height.antt =====
-- The height of a node, over every history of its operations.
use protonchain.Base.{
  ℕ, ◌≡◌, ◌⊎◌, inl, inr, Option-cases, refl, false, some, List, [], ◌∷◌, arith, nat_key,
}
use protonchain.Base.HashMap
use protonchain.Types.{Hash, Hasher, Bincode, Address, Transaction, Block, ChainConfig, hash_key}
use protonchain.Consensus.Validators.{Secp, ValidatorSet}
use protonchain.Consensus.Mempool
use protonchain.Consensus.Mempool.{Mempool, added}
use protonchain.Consensus.Engine.{
  Engine, new_engine, propose_block, propose_over, build_block, finalize_block, validate_block,
  has_parent, get_block, get_latest_height,
}

-- The signature that the proposer puts into the header.
abbrev pub sign : List ℕ → Block → Block
sign signature block = record block { header = record (block.header) { signature = signature } }

module _ ⦃h : Hasher⦄ ⦃b : Bincode⦄ ⦃s : Secp⦄ where
  -- The states of a node, with nothing asked of the blocks. A node starts empty, takes in
  -- transactions, and finalizes any block that it is given, as `finalize_block` does.
  pub data Reach : Engine → Type 0 where
    starts :
        (config : ChainConfig) (set : ValidatorSet) (address : Address)
        → Reach (new_engine config set address)
    submits :
        {e : Engine} (tx : Transaction) (pool : Mempool)
        → Reach e
        → Mempool.add_transaction tx e.mempool ≡ added pool
        → Reach (record e { mempool = pool })
    finalizes : {e : Engine} (block : Block) → Reach e → Reach (finalize_block e block)

  -- Nothing that a node does moves `current_height`.
  pub Reach-get_latest_height : {e : Engine} → Reach e → get_latest_height e ≡ 0
  unfolding new_engine finalize_block get_latest_height
  Reach-get_latest_height (starts config set address) = refl
  Reach-get_latest_height (submits tx pool r eq) = Reach-get_latest_height r
  Reach-get_latest_height (finalizes block r) = Reach-get_latest_height r

  propose_over_height :
      (e : Engine) (prev_hash : Hash) (timestamp : ℕ) (txs : List Transaction) (block : Block)
      → get_latest_height e ≡ 0
      → propose_over e prev_hash timestamp txs ≡ some block
      → block.header.height ≡ 1
  unfolding propose_over build_block get_latest_height
  propose_over_height e prev timestamp [] block z p = cc
  propose_over_height e prev timestamp (tx ∷ txs) block z p = ground arith

  -- A node with no block of height 0 finds no parent for a block of height 1.
  validate_block_no_genesis :
      (e : Engine) (block : Block)
      → block.header.height ≡ 1
      → (validate_block e block ≡ false) ⊎ ((p : Block) × (get_block e 0 ≡ some p))
  unfolding validate_block has_parent HashMap.contains_key get_block
  validate_block_no_genesis e block one = elim (Option-cases (HashMap.get 0 e.blocks)) [
    | inl missing ↦ inl (ground arith)
    | inr found ↦ inr found
  ]

  -- Whatever transactions a node has taken in and whatever blocks it has finalized: its latest
  -- height is 0, each block that it proposes has height 1, and with whatever signature, the block
  -- is refused by every node that has stored no block of height 0.
  pub propose_block-height :
      {e : Engine} (prev_hash : Hash) (timestamp : ℕ) (signature : List ℕ) (block : Block)
      (other : Engine)
      → Reach e
      → propose_block e prev_hash timestamp ≡ some block
      → (get_latest_height e ≡ 0)
        × (block.header.height ≡ 1)
        × ((validate_block other (sign signature block) ≡ false)
            ⊎ ((p : Block) × (get_block other 0 ≡ some p)))
  unfolding propose_block
  propose_block-height {e} prev timestamp signature block other r p =
      let one = propose_over_height e prev timestamp _ block (Reach-get_latest_height r) p in
      (Reach-get_latest_height r, one, validate_block_no_genesis other (sign signature block) one)
