-- ===== src/Network.antt =====
-- src/network/mod.rs. bincode and libp2p are libraries: the encoding of a message and publishing the
-- bytes on a topic are parameters, the latter says whether it succeeds, and what was published is
-- listed beside the result. A lock is a Boolean, whether a thread holds it, and a call that waits for
-- a lock that is not released comes to `deadlock`: parking_lot's locks are not reentrant.
pub mod Broadcast
pub mod Sync
pub mod Peers
mod Tests
use protonchain.Base.{ℕ, ◌+◌, Bool, true, false, Option, List, [], ◌∷◌}
use protonchain.Types.{Hash, Address, Transaction, Block, Account}
use protonchain.Consensus.Quorum.{QuorumCertificate}
use protonchain.Multichain.Router.{CrossChainTransaction}

pub data NetworkMessage : Type 0 where
  new_view : ℕ → ℕ → Address → NetworkMessage
  prepare : Hash → ℕ → ℕ → Address → List ℕ → NetworkMessage
  pre_commit : Hash → ℕ → ℕ → Address → List ℕ → NetworkMessage
  commit : Hash → ℕ → ℕ → Address → List ℕ → NetworkMessage
  block_proposal : Block → Option QuorumCertificate → NetworkMessage
  block_request : ℕ → ℕ → NetworkMessage
  block_response : Block → NetworkMessage
  transaction : Transaction → NetworkMessage
  transaction_batch : List Transaction → ℕ → NetworkMessage
  cross_chain_tx : CrossChainTransaction → NetworkMessage
  cross_chain_proof : Hash → List ℕ → NetworkMessage
  state_request : ℕ → ℕ → NetworkMessage
  state_response : Hash → List (Address × Account) → NetworkMessage
  peer_info : List ℕ → List ℕ → ℕ → Option Address → NetworkMessage
  ping : ℕ → NetworkMessage
  pong : ℕ → NetworkMessage

-- the topics, `proton-blocks` and so on
pub data Topic : Type 0 where
  blocks transactions consensus crosschain general : Topic

-- the topics that `start` subscribes to
abbrev pub subscribed : List Topic
subscribed = Topic.blocks ∷ Topic.transactions ∷ Topic.consensus ∷ Topic.crosschain ∷ []

-- the topic of `broadcast`
unfoldable pub topic_of : NetworkMessage → Topic
topic_of (NetworkMessage.block_proposal _ _) = Topic.blocks
topic_of (NetworkMessage.transaction _) = Topic.transactions
topic_of (NetworkMessage.transaction_batch _ _) = Topic.transactions
topic_of (NetworkMessage.prepare _ _ _ _ _) = Topic.consensus
topic_of (NetworkMessage.pre_commit _ _ _ _ _) = Topic.consensus
topic_of (NetworkMessage.commit _ _ _ _ _) = Topic.consensus
topic_of (NetworkMessage.new_view _ _ _) = Topic.consensus
topic_of (NetworkMessage.cross_chain_tx _) = Topic.crosschain
topic_of (NetworkMessage.cross_chain_proof _ _) = Topic.crosschain
topic_of (NetworkMessage.block_request _ _) = Topic.general
topic_of (NetworkMessage.block_response _) = Topic.general
topic_of (NetworkMessage.state_request _ _) = Topic.general
topic_of (NetworkMessage.state_response _ _) = Topic.general
topic_of (NetworkMessage.peer_info _ _ _ _) = Topic.general
topic_of (NetworkMessage.ping _) = Topic.general
topic_of (NetworkMessage.pong _) = Topic.general
