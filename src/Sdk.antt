-- ===== src/Sdk.antt =====
-- src/sdk.rs: the numbers and the collections that the contracts are written with.
pub mod U256
pub mod Host
pub mod Calls
pub mod Map
pub mod Set
pub mod Examples
pub mod Serial
pub mod Commitments
mod Tests
