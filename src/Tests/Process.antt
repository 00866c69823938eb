-- ===== src/Tests/Process.antt =====
-- The two credit stores of the bot, on a small disk.
use signal_bot_tee.Common.{some, ◌≡◌, refl, ok, arith}
use signal_bot_tee.Common.Table
use signal_bot_tee.Common.StringSet
use signal_bot_tee.Credits.Types.{UsageRecord, add_to_balance, new_balance, deduct_from_balance}
use signal_bot_tee.Credits.Store.Data.{CreditStoreData, spend, is_tx_processed, grant}
use signal_bot_tee.Credits.Store.Platform.{Platform, IsFaithful}
use signal_bot_tee.Credits.Store.Persist.{
  open_store, persist, derive_key, write_sealed, deduct_credits, add_credits,
}
use signal_bot_tee.Payments.Deposits.{
  process_deposit, verify_on_chain, credit, confirmed_deposit, chain_enabled, payload_of,
}
use signal_bot_tee.Payments.Process.{Process, on_bot, on_server}
use signal_bot_tee.Payments.Process.Overwriting.{deposit_overwritten}
use signal_bot_tee.Tests.Credits.{alice, funded}
use signal_bot_tee.Tests.Persistence.{Disk, small_platform, store}
use signal_bot_tee.Tests.Payments.{api, asked}

abbrev usage : UsageRecord
usage = record {
  user_id = alice;
  credits_consumed = 10;
  prompt_tokens = 1;
  completion_tokens = 1;
  total_tokens = 2;
  conversation_id = alice;
  timestamp = 9;
}

unfoldable charged_data : CreditStoreData
unfolding spend
charged_data = (spend 9 alice 10 usage funded).1

-- serde is told the one value that is stored here.
abbrev platform : Platform Disk
unfolding charged_data
platform = record small_platform { deserialize = λ b. some charged_data }

platform-IsFaithful : IsFaithful platform
unfolding platform
platform-IsFaithful = record {
  nonce_size = λ w. refl;
  decrypts = λ key nonce plain {cipher} h. ground arith;
  renamed = λ b w h k. (refl, refl);
}

abbrev running : Process Disk
running = record {
  bot = record { store_data = funded; cached_key = store.cached_key };
  server = record { store_data = funded; cached_key = store.cached_key };
  world = store.world;
}

charge_answered :
    (on_bot
      (deduct_credits platform 9 alice 10 usage)
      (on_server (process_deposit platform api "d9" 5 asked) running).1).0
    ≡ ok (deduct_from_balance 9 10 (add_to_balance 5 1000000 (new_balance 5 alice))).0
unfolding platform on_bot on_server deduct_credits Table.get grant StringSet.contains Table.put
    add_to_balance new_balance deduct_from_balance persist derive_key write_sealed process_deposit
    chain_enabled is_tx_processed StringSet.insert verify_on_chain payload_of credit spend
    add_credits confirmed_deposit
charge_answered = refl

deposit_overwritten_example :
    let t = (on_server (process_deposit platform api "d9" 5 asked) running).1 in
    let (charged, u) = on_bot (deduct_credits platform 9 alice 10 usage) t in
    let (opened, reopened) = open_store platform u.bot.cached_key u.world in
    (t.bot.store_data ≡ funded)
    × (opened ≡ ok tt)
    × (reopened.store_data ≡ (spend 9 alice 10 usage funded).1)
    × (is_tx_processed "0xfeed" reopened.store_data ≡ is_tx_processed "0xfeed" funded)
unfolding platform charged_data on_bot on_server
deposit_overwritten_example =
    deposit_overwritten platform platform-IsFaithful api "d9" 5 9 asked alice 10 usage running
      (λ plain h. refl) charge_answered
