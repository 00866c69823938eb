-- ===== src/NearAi.antt =====
-- crates/near-ai-client: the client of the model.
pub mod Client
pub mod Retry
pub mod Events
pub mod Stream
