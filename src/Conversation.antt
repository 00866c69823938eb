-- ===== src/Conversation.antt =====
-- crates/conversation-store: the conversations of the users in memory, with their expiry.
-- `now` is a reading of the monotonic clock, which decides what has expired; `utc` is a reading of
-- the calendar clock in seconds, which stamps messages. One operation reads each clock once here.
pub mod Types
pub mod Store
