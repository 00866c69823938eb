-- ===== src/Payments/Chains.antt =====
-- What crates/x402-payments/src/chains/base.rs, near.rs and solana.rs share: the JSON-RPC reply, and the
-- tests of a verification against what the payload expects.
pub mod Base
pub mod Near
pub mod Solana
pub mod Rpc
