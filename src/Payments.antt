-- ===== src/Payments.antt =====
-- crates/x402-payments: the payment API, the chains behind it and the sweeper, over the credit store.
pub mod Facilitator
pub mod Deposits
pub mod Advertising
pub mod Sweeper
pub mod Chains
pub mod Process
