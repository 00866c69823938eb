-- ===== src/Payments/Chains/Base/Soundness.antt =====
-- crates/x402-payments/src/chains/base.rs: what a verified payment on Base rests on.
use signal_bot_tee.Common.{
  IsIn, ℕ, ◌<◌, String, str_eq, eq_iff, true, Option, none, some, List, [], ◌∷◌, Result, ok, err,
  ◌≡◌, inl, inr, refl, sym, ap, ◌∙◌, arith, Bool-cases, Option-cases,
}
use signal_bot_tee.Common.Exec.{Result-cases}
use signal_bot_tee.Payments.Facilitator.{PaymentVerification, PaymentPayload}
use signal_bot_tee.Payments.Chains.Rpc.{is_amount}
use signal_bot_tee.Payments.Chains.Base.{
  TxLog, TxReceipt, BaseFacilitator, Fault, transfer_event_signature, parse_hex_u64, topic_address,
  scan_topics, scan_log, scan_logs, or_next, check_found, is_from, verify_payment, verify_receipt,
  get_transaction_receipt, block_of, get_block_number,
}

module _ {W : Type 0} (b : BaseFacilitator W) where
  -- The topics and the data say that `sender` sent `amount` to the wallet.
  abbrev pub IsTransferOf : List String → String → String → ℕ → Type 0
  IsTransferOf topics payload sender amount =
      (signature from to : String) × (more : List String) × (to_address : String) × (topics
        ≡ signature ∷ from ∷ to ∷ more)
      × (b.to_lowercase signature ≡ transfer_event_signature)
      × (topic_address to ≡ some to_address)
      × (b.to_lowercase to_address ≡ b.to_lowercase b.wallet_address)
      × (topic_address from ≡ some sender)
      × (parse_hex_u64 payload ≡ some amount)

  -- The log is of the USDC contract, and says so.
  abbrev pub IsTransfer : TxLog → String → ℕ → Type 0
  IsTransfer log sender amount =
      (b.to_lowercase log.address ≡ b.to_lowercase b.usdc_contract)
      × IsTransferOf log.topics log.payload sender amount

  scan_topics-IsTransferOf :
      (topics : List String) (payload sender : String) (amount : ℕ)
      → scan_topics b topics payload ≡ ok (some (sender, amount))
      → IsTransferOf topics payload sender amount
  unfolding scan_topics
  scan_topics-IsTransferOf [] payload sender amount h = absurd (ground (arith, h))
  scan_topics-IsTransferOf (signature ∷ []) payload sender amount h = absurd (ground (arith, h))
  scan_topics-IsTransferOf (signature ∷ from ∷ []) payload sender amount h =
      absurd (ground (arith, h))
  scan_topics-IsTransferOf (signature ∷ from ∷ to ∷ more) payload sender amount h =
      elim (Option-cases (topic_address to)) [
        | inl cut ↦ absurd (ground (arith, cut))
        | inr (to_address, there) ↦ (
          signature,
          from,
          to,
          more,
          to_address,
          refl,
          ground (arith, eq_iff (b.to_lowercase signature) transfer_event_signature),
          there,
          ground
              (arith, there, eq_iff (b.to_lowercase to_address) (b.to_lowercase b.wallet_address)),
          ground (arith, there),
          ground (arith, there),
        )
      ]

  scan_log-IsTransfer :
      (log : TxLog) (sender : String) (amount : ℕ)
      → scan_log b log ≡ ok (some (sender, amount))
      → IsTransfer log sender amount
  unfolding scan_log
  scan_log-IsTransfer log sender amount h =
      elim (Bool-cases (str_eq (b.to_lowercase log.address) (b.to_lowercase b.usdc_contract))) [
        | inr other ↦ absurd (ground (arith, other))
        | inl usdc ↦ (
          (eq_iff (b.to_lowercase log.address) (b.to_lowercase b.usdc_contract)).0 usdc,
          scan_topics-IsTransferOf log.topics log.payload sender amount (ground (arith, usdc)),
        )
      ]

  scan_logs-IsTransfer :
      (logs : List TxLog) (sender : String) (amount : ℕ)
      → scan_logs b logs ≡ ok (some (sender, amount))
      → (log : TxLog) × IsIn log logs × IsTransfer log sender amount
  unfolding scan_logs
  scan_logs-IsTransfer [] sender amount h = absurd (ground (arith, h))
  scan_logs-IsTransfer (log ∷ logs) sender amount h =
      by_round (scan_log b log) refl h (scan_logs-IsTransfer logs sender amount)
    where
      by_round :
          (r : Result Fault (Option (String × ℕ)))
          → scan_log b log ≡ r
          → or_next b r (scan_logs b logs) ≡ ok (some (sender, amount))
          → (scan_logs b logs ≡ ok (some (sender, amount))
              → (found : TxLog) × IsIn found logs × IsTransfer found sender amount)
          → (found : TxLog) × IsIn found (log ∷ logs) × IsTransfer found sender amount
      by_round (err e) here there later = cc
      by_round (ok none) here there later =
          let (found, among, transfer) = later there in (found, inr among, transfer)
      by_round (ok (some pair)) here there later =
          (log, inl refl, scan_log-IsTransfer log sender amount (here ∙ there))

  -- What the receipt of a transaction, as the node shows it, has to say
  abbrev pub IsBacked : PaymentPayload → W → String → ℕ → Type 0
  IsBacked payload w sender amount =
      (receipt : TxReceipt) × (log : TxLog) × ((get_transaction_receipt b payload.tx_hash w).0
        ≡ ok (some receipt))
      × (receipt.status ≡ "0x1")
      × IsIn log receipt.logs
      × IsTransfer log sender amount
      × (0 < amount)
      × (is_from b payload.from sender ≡ true)
      × (is_amount payload.amount amount ≡ true)

  check_found_lem :
      (payload : PaymentPayload) (found : Option (String × ℕ)) (sender : String) (amount : ℕ)
      → check_found b payload found ≡ ok (sender, amount)
      → (found ≡ some (sender, amount))
        × (0 < amount)
        × (is_from b payload.from sender ≡ true)
        × (is_amount payload.amount amount ≡ true)
  unfolding check_found
  check_found_lem payload none sender amount h = absurd (ground (arith, h))
  check_found_lem payload (some (s, n)) sender amount h = ground (arith, h)

  verify_receipt_lem :
      (payload : PaymentPayload) (receipt : TxReceipt) (w : W) {v : PaymentVerification}
      → (verify_receipt b payload receipt w).0 ≡ ok v
      → (receipt.status ≡ "0x1")
        × ((found : Option (String × ℕ)) × (sender : String) × (v.is_verified ≡ true)
            × (v.from ≡ some sender)
            × (scan_logs b receipt.logs ≡ ok found)
            × (check_found b payload found ≡ ok (sender, v.amount_usdc)))
  unfolding verify_receipt
  verify_receipt_lem payload receipt w {v} h = elim (Bool-cases (str_eq receipt.status "0x1")) [
    | inr other ↦ absurd (ground (arith, other))
    | inl fine ↦ (
      (eq_iff receipt.status "0x1").0 fine,
      elim (Result-cases (scan_logs b receipt.logs)) [
        | inr (e, stopped) ↦ absurd (ground (arith, fine, stopped))
        | inl (found, scanned) ↦ elim (Result-cases (check_found b payload found)) [
          | inr (e, stopped) ↦ absurd (ground (arith, fine, scanned, stopped))
          | inl ((sender, amount), tested) ↦ elim (Option-cases (block_of receipt.block_number)) [
            | inl bad ↦ absurd (ground (arith, fine, scanned, tested, bad))
            | inr (block, at_block) ↦ elim (Result-cases (get_block_number b w).0) [
              | inr (e, stopped) ↦ absurd (ground (arith, fine, scanned, tested, at_block, stopped))
              | inl (current, numbered) ↦
                  let same : (v.is_verified ≡ true)
                      × (v.from ≡ some sender)
                      × (v.amount_usdc ≡ amount) =
                    ground (arith, fine, scanned, tested, at_block, numbered) in
                  (
                    found,
                    sender,
                    same.0,
                    same.1,
                    scanned,
                    tested ∙ ap (λ a. ok (sender, a)) (sym same.2),
                  )
            ]
          ]
        ]
      ],
    )
  ]

  -- A verification on Base that succeeds rests on the chain: the node shows a receipt of the hash with
  -- the status of a success, which holds a log of the USDC contract, a transfer to the wallet, and the
  -- sender and amount of the answer are the log's, the amount positive, and the sender and amount that
  -- the payload expects, if it expects any.
  pub verify_payment-IsBacked :
      (payload : PaymentPayload) (w : W) {v : PaymentVerification}
      → (verify_payment b payload w).0 ≡ ok v
      → (v.is_verified ≡ true)
        × ((sender : String) × (v.from ≡ some sender) × IsBacked payload w sender v.amount_usdc)
  unfolding verify_payment
  verify_payment-IsBacked payload w {v} h =
      elim (Result-cases (get_transaction_receipt b payload.tx_hash w).0) [
        | inr (e, stopped) ↦ absurd (ground (arith, stopped))
        | inl (none, shown) ↦ absurd (ground (arith, shown))
        | inl (some receipt, shown) ↦
            let (succeeded, (found, sender, is_verified, from, scanned, tested)) =
              verify_receipt_lem payload receipt (get_transaction_receipt b payload.tx_hash w).1
                {v = v} (ground (arith, shown)) in
            let (there, positive, sent, exact) =
              check_found_lem payload found sender v.amount_usdc tested in
            let (log, among, transfer) =
              scan_logs-IsTransfer receipt.logs sender v.amount_usdc (scanned ∙ ap ok there) in
            (
              is_verified,
              (
                sender,
                from,
                (receipt, log, shown, succeeded, among, transfer, positive, sent, exact),
              ),
            )
      ]
