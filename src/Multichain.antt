-- ===== src/Multichain.antt =====
-- src/multichain/mod.rs: the shards and the router between them.
pub mod Router
pub mod Shards
pub mod Supply
pub mod Routing
mod Tests
