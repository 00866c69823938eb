-- ===== src/Registration.antt =====
-- crates/signal-registration-proxy: the registry of phone numbers and the HTTP handlers that
-- register, verify, configure and remove them.
pub mod Phone
pub mod Registry
pub mod Listing
pub mod Outside
pub mod Client
pub mod Storage
pub mod Requests
pub mod Proxy
pub mod Transition
pub mod Handlers
pub mod Server
