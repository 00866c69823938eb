-- ===== src/Attestation.antt =====
-- crates/dstack-client and crates/signal-bot/src/commands/verify.rs: the proofs of the TEE.
pub mod Agent
pub mod Verify
pub mod Reply
pub mod Binding
pub mod Freshness
