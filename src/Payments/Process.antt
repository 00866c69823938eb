-- ===== src/Payments/Process.antt =====
-- crates/signal-bot/src/main.rs and crates/x402-payments/src/lib.rs: the two credit stores of the
-- running bot. The commands use one, the payment API another, and both are opened on the same file.
pub mod Overwriting
use signal_bot_tee.Common.{Option, none, Result, ok, err}
use signal_bot_tee.Common.Exec.{Exec}
use signal_bot_tee.Credits.Types.{PaymentError}
use signal_bot_tee.Credits.Store.Data.{CreditStoreData}
use signal_bot_tee.Credits.Store.Platform.{Bytes, Platform}
use signal_bot_tee.Credits.Store.Persist.{CreditStore, open_store}

-- What one `CreditStore` holds in memory
pub record Memory : Type 0 where
  pub store_data : CreditStoreData
  pub cached_key : Option Bytes

pub record Process (W : Type 0) : Type 0 where
  pub bot : Memory
  pub server : Memory
  pub world : W

module _ {W : Type 0} where
  abbrev pub store_at : Memory → W → CreditStore W
  store_at m w = record { store_data = m.store_data; cached_key = m.cached_key; world = w }

  abbrev pub memory_of : CreditStore W → Memory
  memory_of s = record { store_data = s.store_data; cached_key = s.cached_key }

module _ {W E A : Type 0} (action : Exec (CreditStore W) E A) where
  -- A command of the bot, which holds its own store
  unfoldable pub on_bot : Exec (Process W) E A
  on_bot s =
      let (r, t) = action (store_at s.bot s.world) in
      (r, record s { bot = memory_of t; world = t.world })

  -- A request to the payment server, which holds its own store
  unfoldable pub on_server : Exec (Process W) E A
  on_server s =
      let (r, t) = action (store_at s.server s.world) in
      (r, record s { server = memory_of t; world = t.world })

abbrev pub with_server :
    {W : Type 0}
    → CreditStore W
    → Result PaymentError (Unit {0}) × CreditStore W
    → Result PaymentError (Process W) × W
with_server bot (err e, s) = (err e, s.world)
with_server bot (ok tt, s) =
    (ok (record { bot = memory_of bot; server = memory_of s; world = s.world }), s.world)

unfoldable pub with_bot :
    {W : Type 0}
    → Platform W
    → Result PaymentError (Unit {0}) × CreditStore W
    → Result PaymentError (Process W) × W
unfolding open_store
with_bot p (err e, s) = (err e, s.world)
with_bot p (ok tt, s) = with_server s (open_store p none s.world)

-- The two calls of `CreditStore::new` at the start, of the bot first
unfoldable pub start : {W : Type 0} → Platform W → W → Result PaymentError (Process W) × W
unfolding with_bot open_store
start p w = with_bot p (open_store p none w)
