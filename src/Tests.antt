-- ===== src/Tests.antt =====
-- Concrete inputs: each theorem of the header applied to values, and runs of the definitions.
mod Credits
mod Persistence
mod Registration
mod Conversation
mod Payments
mod Chat
mod Client
mod Tools
mod Transfers
mod Wallets
mod Negotiation
mod Process
mod Chains
mod Storage
mod Dispatch
mod Groups
mod NearAi
mod Advertising
mod Attestation
mod Listing
mod Translation
mod Signal
