-- ===== src/Negotiation.antt =====
-- Sealed negotiation: crates/signal-bot/src/commands/conditional_recall.rs.
pub mod Types
pub mod Store
pub mod Commands
