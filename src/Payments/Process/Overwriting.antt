-- ===== src/Payments/Process/Overwriting.antt =====
-- What the two credit stores of the running bot do to each other's data.
use signal_bot_tee.Common.{ℕ, String, some, ok, ◌≡◌, ◌∙◌, refl, ap, arith, inl, inr}
use signal_bot_tee.Common.Exec.{Result-cases}
use signal_bot_tee.Credits.Types.{UsageRecord, CreditBalance}
use signal_bot_tee.Credits.Store.Data.{CreditStoreData, spend, is_tx_processed}
use signal_bot_tee.Credits.Store.Platform.{Bytes, Platform, IsFaithful}
use signal_bot_tee.Credits.Store.Persist.{CreditStore, open_store, persist, deduct_credits}
use signal_bot_tee.Credits.Store.Persist.RoundTrip.{with_key-persist}
use signal_bot_tee.Payments.Deposits.{DepositRequest, AppState, process_deposit}
use signal_bot_tee.Payments.Process.{Process, on_bot, on_server, store_at}

module _ {W : Type 0} (p : Platform W) (now : ℕ) (user : String) (credits : ℕ)
    (usage : UsageRecord) where
  -- A charge that succeeds has persisted the data that it leaves.
  deduct_credits-persists :
      (s : CreditStore W) {b : CreditBalance}
      → (deduct_credits p now user credits usage s).0 ≡ ok b
      → let s' = record s { store_data = (spend now user credits usage s.store_data).1 } in
        ((persist p s').0 ≡ ok tt)
        × ((deduct_credits p now user credits usage s).1 ≡ (persist p s').1)
  unfolding deduct_credits
  deduct_credits-persists s h = elim (Result-cases (spend now user credits usage s.store_data).0) [
    | inr (e, refused) ↦ absurd (ground (arith, refused))
    | inl (b, spent) ↦
        elim (Result-cases
          (persist p (record s { store_data = (spend now user credits usage s.store_data).1 })).0) [
            | inr (e, unsaved) ↦ absurd (ground (arith, spent, unsaved))
            | inl (tt, saved) ↦ (saved, rw (spent, deduct_credits, saved))
          ]
  ]

  is_tx_processed-spend :
      (tx_hash : String) (d : CreditStoreData)
      → is_tx_processed tx_hash (spend now user credits usage d).1 ≡ is_tx_processed tx_hash d
  unfolding spend is_tx_processed
  is_tx_processed-spend tx_hash d = ground arith

-- A deposit that the payment server has just processed is lost as soon as the bot charges anyone: the
-- bot's store does not see the deposit, and after a charge that succeeds a store opened on the file
-- holds the bot's data with that charge, whatever the deposit was answered; so its transaction counts
-- as processed there only if the bot's store knew it before.
pub deposit_overwritten :
    {W : Type 0} (p : Platform W) (laws : IsFaithful p) (a : AppState W) (id : String)
    (now later : ℕ) (q : DepositRequest) (user : String) (credits : ℕ) (usage : UsageRecord)
    (s : Process W) {b : CreditBalance}
    → let d = (spend later user credits usage s.bot.store_data).1 in
      let t = (on_server (process_deposit p a id now q) s).1 in
      let (charged, u) = on_bot (deduct_credits p later user credits usage) t in
      ((plain : Bytes) → p.serialize d ≡ some plain → p.deserialize plain ≡ some d)
      → charged ≡ ok b
      → let (opened, reopened) = open_store p u.bot.cached_key u.world in
        (t.bot.store_data ≡ s.bot.store_data)
        × (opened ≡ ok tt)
        × (reopened.store_data ≡ d)
        × (is_tx_processed q.tx_hash reopened.store_data
            ≡ is_tx_processed q.tx_hash s.bot.store_data)
unfolding on_bot on_server
deposit_overwritten p laws a id now later q user credits usage s {b} json charged =
    let w = (process_deposit p a id now q (store_at s.server s.world)).1.world in
    let bot = store_at s.bot w in
    let (saved, ended) = deduct_credits-persists p later user credits usage bot {b = b} charged in
    let (opened, held) =
      with_key-persist p laws
        (record bot { store_data = (spend later user credits usage s.bot.store_data).1 }) json
        saved in
    let kept = ap (λ t. (open_store p t.cached_key t.world).1.store_data) ended ∙ held in
    (
      refl,
      ap (λ t. (open_store p t.cached_key t.world).0) ended ∙ opened,
      kept,
      ap (is_tx_processed q.tx_hash) kept
          ∙ is_tx_processed-spend p later user credits usage q.tx_hash s.bot.store_data,
    )
