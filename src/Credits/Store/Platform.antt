-- ===== src/Credits/Store/Platform.antt =====
-- What crates/x402-payments/src/credits/store.rs calls and does not implement, for the data of its file.
use signal_bot_tee.Platform.{TeeStorage}
use signal_bot_tee.Credits.Store.Data.{CreditStoreData}
pub use signal_bot_tee.Platform.{Bytes, AppInfo, IsFaithful, KeepsFile}

abbrev pub Platform : Type 0 → Type 0
Platform W = TeeStorage W CreditStoreData
