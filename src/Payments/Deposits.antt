-- ===== src/Payments/Deposits.antt =====
-- crates/x402-payments/src/api/handlers.rs: the handlers on deposits. The state is the credit store;
-- its world has the nodes of the chains too.
pub mod Outcomes
use signal_bot_tee.Common.{
  ℕ, String, Bool, true, false, not, Option, none, some, Result, ok, err, if◌then◌else◌,
}
use signal_bot_tee.Common.Exec.{Exec, pure, raise, raise_if, ok_or, gets, ◌>>=◌, ◌>>◌}
use signal_bot_tee.Credits.Types.{
  Chain, PaymentError, CreditBalance, Deposit, DepositStatus, confirmed, duplicate_transaction,
  new_pending, confirm,
}
use signal_bot_tee.Credits.Pricing.{PricingConfig, usdc_to_credits}
use signal_bot_tee.Credits.Store.Data.{is_tx_processed}
use signal_bot_tee.Credits.Store.Platform.{Platform}
use signal_bot_tee.Credits.Store.Persist.{CreditStore, add_credits}
use signal_bot_tee.Payments.Facilitator.{
  PaymentPayload, PaymentVerification, Facilitator, ChainConfig, PerChain, of_chain, new_payload,
  with_amount,
}

-- The codes of `ErrorResponse`, with the error that the message shows.
pub data ApiError : Type 0 where
  chain_disabled duplicate_tx chain_not_available not_verified : ApiError
  verification_failed internal_error : PaymentError → ApiError

-- The HTTP status of an error
unfoldable pub status_of : ApiError → ℕ
status_of chain_disabled = 400
status_of duplicate_tx = 409
status_of chain_not_available = 500
status_of not_verified = 400
status_of (verification_failed e) = 400
status_of (internal_error e) = 500

pub record DepositRequest : Type 0 where
  pub chain : Chain
  pub tx_hash : String
  pub user_id : String
  pub amount : ℕ

pub record DepositResponse : Type 0 where
  pub deposit_id : String
  pub credits_granted : ℕ
  pub new_balance : ℕ
  pub tx_hash : String
  pub status : DepositStatus

-- `AppState` without the store, and what of `PaymentConfig` the handlers read
pub record AppState (W : Type 0) : Type 0 where
  pub configs : PerChain (Option ChainConfig)
  pub pricing : PricingConfig
  pub facilitators : PerChain (Option (Facilitator W))

abbrev pub is_enabled : Option ChainConfig → Bool
is_enabled none = false
is_enabled (some c) = c.enabled

module _ {W : Type 0} (p : Platform W) (a : AppState W) where
  abbrev pub Handler : Type 0 → Type 0
  Handler A = Exec (CreditStore W) ApiError A

  unfoldable pub chain_enabled : Chain → Bool
  chain_enabled chain = is_enabled (of_chain chain a.configs)

  unfoldable pub payload_of : DepositRequest → PaymentPayload
  unfolding new_payload with_amount
  payload_of request =
      with_amount request.amount (new_payload request.chain request.tx_hash request.user_id)

  -- `.map_err(|e| ...)?` on the verification
  abbrev pub checked :
      Result PaymentError PaymentVerification × W
      → CreditStore W
      → Result ApiError PaymentVerification × CreditStore W
  checked (ok v, w) s = (ok v, record s { world = w })
  checked (err e, w) s = (err (verification_failed e), record s { world = w })

  unfoldable pub verify_on_chain : DepositRequest → Handler PaymentVerification
  verify_on_chain request = do
    facilitator ← ok_or (of_chain request.chain a.facilitators) chain_not_available
    (λ s. checked (facilitator.verify_payment (payload_of request) s.world) s)

  -- The deposit that a verification leads to, confirmed at once
  unfoldable pub confirmed_deposit : String → ℕ → DepositRequest → PaymentVerification → Deposit
  unfolding new_pending confirm usdc_to_credits
  confirmed_deposit id now request v = confirm now (
      new_pending now id request.user_id request.chain request.tx_hash v.amount_usdc
        (usdc_to_credits a.pricing v.amount_usdc))

  abbrev pub deposit_error : PaymentError → ApiError
  deposit_error (duplicate_transaction tx) = duplicate_tx
  deposit_error e = internal_error e

  abbrev pub answer : Deposit → Result PaymentError CreditBalance → Result ApiError DepositResponse
  answer deposit (ok b) = ok (record {
    deposit_id = deposit.id;
    credits_granted = deposit.credits_granted;
    new_balance = b.credits_remaining;
    tx_hash = deposit.tx_hash;
    status = confirmed;
  })
  answer deposit (err e) = err (deposit_error e)

  -- `match state.credit_store.add_credits(deposit).await { ... }`
  unfoldable pub credit : ℕ → Deposit → Handler DepositResponse
  credit now deposit s = let (r, t) = add_credits p now deposit s in (answer deposit r, t)

  unfoldable pub process_deposit : String → ℕ → DepositRequest → Handler DepositResponse
  process_deposit id now request = do
    raise_if (not (chain_enabled request.chain)) chain_disabled
    processed ← gets (λ s. is_tx_processed request.tx_hash s.store_data)
    raise_if processed duplicate_tx
    v ← verify_on_chain request
    raise_if (not v.is_verified) not_verified
    credit now (confirmed_deposit id now request v)
