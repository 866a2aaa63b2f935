-- ===== src/Privacy.antt =====
-- src/privacy/mod.rs: stealth addresses, encrypted amounts, the proofs of private transfers and the
-- encrypted mempool.
pub mod Stealth
pub mod Amount
pub mod Circuit
pub mod Proofs
pub mod Mempool
mod Tests
