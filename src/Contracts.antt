-- ===== src/Contracts.antt =====
-- The contracts of contracts/, over the SDK of src/sdk.rs.
pub mod Staking
pub mod Bridge
pub mod Dex
pub mod Nft
pub mod PrivateToken
