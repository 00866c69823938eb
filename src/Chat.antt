-- ===== src/Chat.antt =====
-- crates/signal-bot/src/commands/chat.rs: a message is answered by the model, with tools, and paid for.
pub mod Types
pub mod Usage
pub mod Handler
pub mod Charging
pub mod Isolation
