-- ===== src/Payments/Chains/Solana/Soundness.antt =====
-- crates/x402-payments/src/chains/solana.rs behind api/handlers.rs: what a credited deposit on Solana
-- rests on.
use mathlib.Core.Path.{subst}
use signal_bot_tee.Common.{
  IsIn, ℕ, ◌+◌, ◌<◌, ltb, String, true, false, ◌&&◌, Option, none, some, List, [], ◌∷◌, ok, ◌≡◌,
  ◌⊎◌, inl, inr, refl, sym, ap, ◌∙◌, arith, Bool-cases,
}
use signal_bot_tee.Common.Exec.{Result-cases}
use signal_bot_tee.Credits.Types.{solana}
use signal_bot_tee.Credits.Store.Data.{grant, is_tx_processed}
use signal_bot_tee.Credits.Store.Platform.{Platform}
use signal_bot_tee.Credits.Store.Persist.{CreditStore}
use signal_bot_tee.Payments.Facilitator.{PaymentVerification, PaymentPayload, of_chain}
use signal_bot_tee.Payments.Deposits.{
  DepositRequest, AppState, payload_of, confirmed_deposit, process_deposit,
}
use signal_bot_tee.Payments.Deposits.Outcomes.{process_deposit-grants}
use signal_bot_tee.Payments.Chains.Rpc.{is_amount}
use signal_bot_tee.Payments.Chains.Solana.{
  TokenBalance, TransactionMeta, SolanaFacilitator, amount_of, amount_at, find_transfer,
  check_found, balances, get_transaction, verify_payment, solana_facilitator, is_deposit_account,
}

module _ {W : Type 0} (n : SolanaFacilitator W) where
  -- A USDC account of the wallet holds `amount` more after than before.
  abbrev pub IsIncrease : List TokenBalance → List TokenBalance → ℕ → Type 0
  IsIncrease pre entries amount =
      (entry : TokenBalance) × IsIn entry entries
      × (is_deposit_account n entry ≡ true)
      × (0 < amount)
      × (amount_of entry ≡ amount_at entry.account_index pre + amount)

  find_transfer-IsIncrease :
      (pre post entries : List TokenBalance) (sender : Option String) (amount : ℕ)
      → find_transfer n pre post entries ≡ some (sender, amount)
      → IsIncrease pre entries amount
  unfolding find_transfer
  find_transfer-IsIncrease pre post [] sender amount h = absurd (ground (arith, h))
  find_transfer-IsIncrease pre post (entry ∷ entries) sender amount h =
      elim (Bool-cases
        (is_deposit_account n entry && ltb (amount_at entry.account_index pre) (amount_of entry))) [
          | inl mine ↦
              (entry, inl refl, ground (arith, mine), ground (arith, mine), ground (arith, mine))
          | inr other ↦
              let (found, among, mine, positive, increase) =
                find_transfer-IsIncrease pre post entries sender amount (ground (arith, other)) in
              (found, inr among, mine, positive, increase)
        ]

  -- What the node has to show of a transaction: it did not fail, and it brought the wallet `amount`
  abbrev pub IsBacked : String → W → ℕ → Type 0
  IsBacked signature w amount =
      (meta : TransactionMeta) × ((get_transaction n signature w).0 ≡ ok (some meta))
      × (meta.has_err ≡ false)
      × IsIncrease (balances meta.pre_token_balances) (balances meta.post_token_balances) amount

  check_found_lem :
      (payload : PaymentPayload) (found : Option (Option String × ℕ)) {v : PaymentVerification}
      → check_found n payload found ≡ ok v
      → (sender : Option String) × (found ≡ some (sender, v.amount_usdc))
        × (is_amount payload.amount v.amount_usdc ≡ true)
  unfolding check_found
  check_found_lem payload none h = absurd (ground (arith, h))
  check_found_lem payload (some (sender, amount)) h = (sender, ground (arith, h), ground (arith, h))

  verify_payment-IsBacked :
      (payload : PaymentPayload) (w : W) {v : PaymentVerification}
      → (verify_payment n payload w).0 ≡ ok v
      → IsBacked payload.tx_hash w v.amount_usdc × (is_amount payload.amount v.amount_usdc ≡ true)
  unfolding verify_payment
  verify_payment-IsBacked payload w {v} h =
      elim (Result-cases (get_transaction n payload.tx_hash w).0) [
        | inr (e, stopped) ↦ absurd (ground (arith, stopped))
        | inl (none, shown) ↦ absurd (ground (arith, shown))
        | inl (some meta, shown) ↦ elim (Bool-cases meta.has_err) [
          | inl bad ↦ absurd (ground (arith, shown, bad))
          | inr fine ↦
              let pre = balances meta.pre_token_balances in
              let post = balances meta.post_token_balances in
              let (sender, found, exact) =
                check_found_lem payload (find_transfer n pre post post) {v = v}
                  (ground (arith, shown, fine)) in
              (
                (
                  meta,
                  shown,
                  fine,
                  find_transfer-IsIncrease pre post post sender v.amount_usdc found,
                ),
                exact,
              )
        ]
      ]

amount_of_claim : (claimed amount : ℕ) → is_amount (some claimed) amount ≡ true → amount ≡ claimed
amount_of_claim claimed amount h = ground arith

-- A deposit on Solana through the API, with the facilitator of solana.rs, leaves the data of the store
-- as they were, or grants to the user of the request the credits of exactly the claimed amount, and
-- then the node shows a transaction of the hash that did not fail and after which a USDC account of
-- the wallet held that much more than before, which is not zero; and the hash was not processed.
pub solana_deposit-IsBacked :
    {W : Type 0} (p : Platform W) (a : AppState W) (n : SolanaFacilitator W) (id : String) (now : ℕ)
    (q : DepositRequest) (s : CreditStore W)
    → a.facilitators.on_solana ≡ some (solana_facilitator n)
    → q.chain ≡ solana
    → let t = (process_deposit p a id now q s).1 in
      (t.store_data ≡ s.store_data)
      ⊎ ((v : PaymentVerification) × IsBacked n q.tx_hash s.world q.amount
          × (v.amount_usdc ≡ q.amount)
          × (is_tx_processed q.tx_hash s.store_data ≡ false)
          × (t.store_data ≡ (grant now (confirmed_deposit p a id now q v) s.store_data).1))
unfolding solana_facilitator payload_of confirmed_deposit
solana_deposit-IsBacked {W} p a n id now q s there on_solana =
    elim (process_deposit-grants p a id now q s) [
      | inl same ↦ inl same
      | inr (v, w, (f, found, said), good, on, fresh, granted) ↦
          let mine : of_chain q.chain a.facilitators ≡ some (solana_facilitator n) =
            ap (λ c. of_chain c a.facilitators) on_solana ∙ there in
          let is_mine : f ≡ solana_facilitator n = cc (found, mine) in
          let heard : (verify_payment n (payload_of p a q) s.world).0 ≡ ok v =
            ap (λ g. (g.verify_payment (payload_of p a q) s.world).0) (sym is_mine)
            ∙ ap (λ r. r.0) said in
          let (backed, exact) =
            verify_payment-IsBacked n (payload_of p a q) s.world {v = v} heard in
          let amount : v.amount_usdc ≡ q.amount = amount_of_claim q.amount v.amount_usdc exact in
          inr (v, subst (IsBacked n q.tx_hash s.world) amount backed, amount, fresh, granted)
    ]
