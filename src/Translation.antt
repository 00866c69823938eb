-- ===== src/Translation.antt =====
-- crates/translation: the translator of group messages.
pub mod Languages
pub mod Flags
pub mod Truncate
pub mod RateLimiter
pub mod Translator
pub mod Pairs
