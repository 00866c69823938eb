-- ===== src/Signal.antt =====
-- crates/signal-client: the client of the Signal CLI and the stream of messages.
pub mod Client
pub mod Receiver
pub mod Refreshing
