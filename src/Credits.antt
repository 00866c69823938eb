-- ===== src/Credits.antt =====
-- crates/x402-payments: prepaid credits. The account types, the price of a message, and the
-- encrypted credit store.
pub mod Types
pub mod Pricing
pub mod Store
