-- ===== src/Tests.antt =====
-- The properties at concrete inputs, over a small instance of viem.
pub mod Toy
pub mod Inputs
pub mod Calculations
pub mod Codec
pub mod Redemption
pub mod Evaluator
pub mod Relay
pub mod Funding
pub mod Vault
pub mod Rounds
pub mod Coalescing
