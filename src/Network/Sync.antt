-- ===== src/Network/Sync.antt =====
-- `BlockSync` of src/network/mod.rs. Its network is the function that `NetworkNode::broadcast` is on
-- it, which may wait for a lock.
use protonchain.Base.{
  sym, subst, ◌||◌, if◌then◌else◌, length, ℕ, ◌≡◌, refl, Bool, true, List, [], nat_key, arith, inl,
  inr, Bool-cases,
}
use protonchain.Base.HashMap
use protonchain.Base.HashMap.{HashMap}
use protonchain.Types.{Hash, Hasher, Bincode, Block, header_hash}
use protonchain.Network.{NetworkMessage, Topic}
use protonchain.Network.Broadcast.{Call}

pub record BlockSync : Type 0 where
  pub known_blocks : HashMap ℕ Hash
  pub pending_requests : HashMap ℕ Bool

pub record SyncStatus : Type 0 where
  pub known_blocks : ℕ
  pub pending_requests : ℕ

-- `new`
abbrev pub new_sync : BlockSync
new_sync = record { known_blocks = []; pending_requests = [] }

-- `get_sync_status`
abbrev pub get_sync_status : BlockSync → SyncStatus
get_sync_status s = record {
  known_blocks = length s.known_blocks;
  pending_requests = length s.pending_requests;
}

contains_key-insert_self :
    {V : Type 0} (k : ℕ) (v : V) (m : HashMap ℕ V)
    → HashMap.contains_key k (HashMap.insert k v m) ≡ true
unfolding HashMap.contains_key
contains_key-insert_self k v m = rw (HashMap.contains_key, HashMap.get-insert_self k v m) refl

module _ (broadcast : NetworkMessage → Call (Bool × List (Topic × NetworkMessage))) where
  -- `request_block`: whether it is `Ok` and what goes out, and the state, which is changed before the
  -- broadcast
  unfoldable pub request_block :
      ℕ → ℕ → BlockSync → Call (Bool × List (Topic × NetworkMessage)) × BlockSync
  request_block height shard_id s =
      if HashMap.contains_key height s.known_blocks
        || HashMap.contains_key height s.pending_requests
      then (Call.returns (true, []), s)
      else (
        broadcast (NetworkMessage.block_request height shard_id),
        record s { pending_requests = HashMap.insert height true s.pending_requests },
      )

module _ ⦃h : Hasher⦄ ⦃b : Bincode⦄ where
  -- `receive_block`
  unfoldable pub receive_block : Block → BlockSync → BlockSync
  unfolding header_hash
  receive_block block s = record {
    known_blocks = HashMap.insert block.header.height (header_hash block.header) s.known_blocks;
    pending_requests = HashMap.remove block.header.height s.pending_requests;
  }

  -- A block that was received is not requested again: a request for its height is `Ok`, sends
  -- nothing and changes nothing.
  pub request_block-receive_block :
      (broadcast : NetworkMessage → Call (Bool × List (Topic × NetworkMessage))) (block : Block)
      (shard_id : ℕ) (s : BlockSync)
      → request_block broadcast block.header.height shard_id (receive_block block s)
        ≡ (Call.returns (true, []), receive_block block s)
  unfolding request_block receive_block
  request_block-receive_block broadcast block shard_id s =
      let known =
        contains_key-insert_self block.header.height (header_hash block.header) s.known_blocks in
      rw (request_block, known) refl

-- A block is requested once: until it is received, a second request for its height is `Ok` and sends
-- nothing, whether or not the first one was published.
pub request_block_twice :
    (broadcast : NetworkMessage → Call (Bool × List (Topic × NetworkMessage)))
    (height shard_id other : ℕ) (s : BlockSync)
    → request_block broadcast height other (request_block broadcast height shard_id s).1
      ≡ (Call.returns (true, []), (request_block broadcast height shard_id s).1)
unfolding request_block
request_block_twice broadcast height shard_id other s =
    elim (Bool-cases (
      HashMap.contains_key height s.known_blocks
      || HashMap.contains_key height s.pending_requests)) [
        | inl there ↦
            let same : (request_block broadcast height shard_id s).1 ≡ s =
              rw (request_block, there) refl in
            subst (λ t. request_block broadcast height other t ≡ (Call.returns (true, []), t))
              (sym same) (rw (request_block, there) refl)
        | inr fresh ↦
            let s' : BlockSync = record s {
              pending_requests = HashMap.insert height true s.pending_requests;
            } in
            let changed : (request_block broadcast height shard_id s).1 ≡ s' =
              rw (request_block, fresh) refl in
            let pending = contains_key-insert_self height true s.pending_requests in
            let found : (HashMap.contains_key height s'.known_blocks
                  || HashMap.contains_key height s'.pending_requests)
                ≡ true =
              ground (arith, pending) in
            subst (λ t. request_block broadcast height other t ≡ (Call.returns (true, []), t))
              (sym changed) (rw (request_block, found) refl)
      ]
