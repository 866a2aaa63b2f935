-- ===== src/Storage.antt =====
-- src/storage/mod.rs: the databases of the node, and the state that is kept in them.
pub mod Interface
pub mod Memory
pub mod Rocks
pub mod Keys
pub mod State
