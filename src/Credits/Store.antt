-- ===== src/Credits/Store.antt =====
-- crates/x402-payments/src/credits/store.rs: the credit store. `CreditStoreData` is what the lock
-- guards; `CreditStore` adds the cached key and the world outside (the TEE agent, the file system,
-- the random source and the cipher), which is reached only through a `Platform`.
pub mod Data
pub mod Platform
pub mod Persist
