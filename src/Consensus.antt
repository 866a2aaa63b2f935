-- ===== src/Consensus.antt =====
-- src/consensus/mod.rs, by its parts.
pub mod Validators
pub mod Quorum
pub mod Mempool
pub mod Engine
pub mod Dag
mod Tests
