-- ===== src/Payments/Chains/Base/Confirmations.antt =====
-- That the two answers about a transaction on Base agree.
use signal_bot_tee.Common.{
  ◌-◌, str_eq, ◌≡◌, refl, arith, inl, inr, none, some, ok, Bool-cases, Option-cases,
}
use signal_bot_tee.Common.Exec.{Result-cases}
use signal_bot_tee.Payments.Facilitator.{PaymentPayload, PaymentVerification}
use signal_bot_tee.Payments.Chains.Base.{
  BaseFacilitator, TxReceipt, verify_payment, verify_receipt, get_transaction_receipt,
  get_block_number, block_of, scan_logs, check_found,
}
use signal_bot_tee.Payments.Chains.Base.Wallet.{BaseWallet, confirmed_tx, status_of, get_tx_status}

module _ {W : Type 0} (b : BaseFacilitator W) (a : BaseWallet W) where
  verify_receipt-status_of :
      (payload : PaymentPayload) (receipt : TxReceipt) (w : W) {v : PaymentVerification}
      → (verify_receipt b payload receipt w).0 ≡ ok v
      → (status_of b a (some receipt) w).0 ≡ ok (confirmed_tx v.confirmations)
  unfolding verify_receipt
  verify_receipt-status_of payload receipt w {v} h =
      elim (Bool-cases (str_eq receipt.status "0x1")) [
        | inr other ↦ absurd (ground (arith, other))
        | inl fine ↦ elim (Result-cases (scan_logs b receipt.logs)) [
          | inr (e, stopped) ↦ absurd (ground (arith, fine, stopped))
          | inl (found, scanned) ↦ elim (Result-cases (check_found b payload found)) [
            | inr (e, stopped) ↦ absurd (ground (arith, fine, scanned, stopped))
            | inl (transfer, tested) ↦ elim (Option-cases (block_of receipt.block_number)) [
              | inl bad ↦ absurd (ground (arith, fine, scanned, tested, bad))
              | inr (block, at_block) ↦ elim (Result-cases (get_block_number b w).0) [
                | inr (e, stopped) ↦
                    absurd (ground (arith, fine, scanned, tested, at_block, stopped))
                | inl (current, numbered) ↦
                    let same : v.confirmations ≡ current - block =
                      ground (arith, fine, scanned, tested, at_block, numbered) in
                    rw (fine, at_block, numbered, same) refl
              ]
            ]
          ]
        ]
      ]

  -- A transaction that is verified as a payment has, asked for its status with the node in the same
  -- state, the status of a confirmed one with the same number of confirmations.
  pub verify_payment-get_tx_status :
      (payload : PaymentPayload) (w : W) {v : PaymentVerification}
      → (verify_payment b payload w).0 ≡ ok v
      → (get_tx_status b a payload.tx_hash w).0 ≡ ok (confirmed_tx v.confirmations)
  unfolding verify_payment get_tx_status
  verify_payment-get_tx_status payload w {v} h =
      elim (Result-cases (get_transaction_receipt b payload.tx_hash w).0) [
        | inr (e, stopped) ↦ absurd (ground (arith, stopped))
        | inl (none, shown) ↦ absurd (ground (arith, shown))
        | inl (some receipt, shown) ↦
            let seen = (get_transaction_receipt b payload.tx_hash w).1 in
            let stated =
              verify_receipt-status_of payload receipt seen {v = v} (ground (arith, shown)) in
            rw shown stated
      ]
