-- ===== src/Payments/Chains/Near/Depositing.antt =====
-- crates/x402-payments/src/chains/near.rs behind api/handlers.rs: deposits on NEAR.
use signal_bot_tee.Common.{String, ℕ, some, err, if◌then◌else◌, ◌≡◌, inl, inr, Bool-cases}
use signal_bot_tee.Credits.Types.{near, invalid_payload}
use signal_bot_tee.Credits.Store.Data.{is_tx_processed}
use signal_bot_tee.Credits.Store.Platform.{Platform}
use signal_bot_tee.Credits.Store.Persist.{CreditStore}
use signal_bot_tee.Payments.Deposits.{
  chain_disabled, duplicate_tx, verification_failed, DepositRequest, AppState, chain_enabled,
  payload_of, verify_on_chain, process_deposit,
}
use signal_bot_tee.Payments.Chains.Near.{NearFacilitator, near_facilitator, verify_payment}

-- No deposit on NEAR is ever credited: with the facilitator of near.rs every request for that chain is
-- refused, and neither the store nor the node is touched, since `process_deposit` never gives the
-- sender that the facilitator asks for.
pub near_deposit_refused :
    {W : Type 0} (p : Platform W) (a : AppState W) (n : NearFacilitator W) (id : String) (now : ℕ)
    (q : DepositRequest) (s : CreditStore W)
    → a.facilitators.on_near ≡ some (near_facilitator n)
    → q.chain ≡ near
    → process_deposit p a id now q s ≡ (
      err (
          if chain_enabled p a q.chain
          then (if is_tx_processed q.tx_hash s.store_data
              then duplicate_tx
              else verification_failed invalid_payload)
          else chain_disabled),
      s,
    )
unfolding process_deposit verify_on_chain near_facilitator verify_payment payload_of
near_deposit_refused p a n id now q s there on_near =
    elim (Bool-cases (chain_enabled p a q.chain)) [
      | inr off ↦ rw off
      | inl on ↦ elim (Bool-cases (is_tx_processed q.tx_hash s.store_data)) [
        | inl old ↦ rw (on, old)
        | inr fresh ↦ rw (on, fresh, on_near, there)
      ]
    ]
