-- ===== src/Programs.antt =====
-- The instruction builders of src/solana/programs.
pub mod System
pub mod SplToken
pub mod ComputeBudget
pub mod Keys
pub mod Laws
pub mod Nonce
pub mod Payloads
pub mod Shapes
pub mod Addresses
