-- ===== src/Payments/Chains/Base.antt =====
-- crates/x402-payments/src/chains/base.rs: the verification of a deposit on Base. The node's answers,
-- and `to_lowercase` of Unicode, are parameters.
pub mod Soundness
pub mod Wallet
pub mod Confirmations
use signal_bot_tee.Common.{
  ℕ, ◌-◌, ◌==◌, leb, ltb, u64_max, String, text_append, str_eq, Bool, true, false, not, ◌||◌,
  Option, none, some, List, [], ◌∷◌, Result, ok, err, if◌then◌else◌,
}
use signal_bot_tee.Common.Exec.{Exec, pure, raise, raise_if, lift, ◌>>=◌, ◌>>◌}
use signal_bot_tee.Common.Text.{byte_length, slice}
use signal_bot_tee.Common.Trim.{trim_start_matches}
use signal_bot_tee.Common.Numeral.{from_str_radix, u128_max}
use signal_bot_tee.Credits.Types.{
  PaymentError, internal, tx_not_found, tx_failed, no_transfer_found, sender_mismatch,
}
use signal_bot_tee.Payments.Facilitator.{PaymentVerification, PaymentPayload}
use signal_bot_tee.Payments.Chains.Rpc.{JsonRpcResponse, rpc_result, is_amount, mismatch}

pub record TxLog : Type 0 where
  pub address : String
  pub topics : List String
  pub payload : String

pub record TxReceipt : Type 0 where
  pub status : String
  pub block_number : Option String
  pub logs : List TxLog

-- The facilitator's address and configuration, and the node behind it
pub record BaseFacilitator (W : Type 0) : Type 0 where
  pub usdc_contract : String
  pub wallet_address : String
  pub to_lowercase : String → String
  pub eth_get_transaction_receipt :
      String → W → Result PaymentError (JsonRpcResponse (Option TxReceipt)) × W
  pub eth_block_number : W → Result PaymentError (JsonRpcResponse String) × W

-- How a verification ends without an answer
pub data Fault : Type 0 where
  failed : PaymentError → Fault
  panicked : Fault

abbrev pub transfer_event_signature : String
transfer_event_signature = "0xddf252ad1be2c89b69c2b068fc378daa952ba7f163c4a11628f55a4df523b3ef"

-- `none` is the error of text that is no number, or too large a one
unfoldable pub parse_hex_u64 : String → Option ℕ
unfolding trim_start_matches from_str_radix
parse_hex_u64 hex =
    let clean = trim_start_matches "0x" hex in
    if str_eq clean "" || str_eq clean "0"
    then some 0
    else elim (from_str_radix 16 u128_max clean) [
      | none ↦ none
      | some v ↦ if leb v u64_max then some v else none
    ]

-- `format!("0x{}", &topic[topic.len() - 40..])`; `none` is its panic
unfoldable pub topic_address : String → Option String
topic_address topic =
    let tail = slice topic (byte_length topic - 40) (byte_length topic) in
    if byte_length tail == 40 then some (text_append "0x" tail) else none

abbrev pub or_panic : {A : Type 0} → Option A → Result Fault A
or_panic none = err panicked
or_panic (some a) = ok a

abbrev pub or_internal : {A : Type 0} → Option A → Result Fault A
or_internal none = err (failed internal)
or_internal (some a) = ok a

abbrev pub failing : {A : Type 0} → Result PaymentError A → Result Fault A
failing (ok a) = ok a
failing (err e) = err (failed e)

-- Text that is there must be a number; none is zero.
unfoldable pub block_of : Option String → Option ℕ
unfolding parse_hex_u64
block_of none = some 0
block_of (some hex) = parse_hex_u64 hex

module _ {W : Type 0} (b : BaseFacilitator W) where
  -- One round of the loop over the logs: `ok none` goes on, `ok (some _)` breaks with the sender and
  -- the amount.
  unfoldable pub scan_topics : List String → String → Result Fault (Option (String × ℕ))
  unfolding topic_address parse_hex_u64
  scan_topics [] payload = ok none
  scan_topics (signature ∷ []) payload = ok none
  scan_topics (signature ∷ from ∷ []) payload = ok none
  scan_topics (signature ∷ from ∷ to ∷ more) payload =
      if not (str_eq (b.to_lowercase signature) transfer_event_signature)
      then ok none
      else elim (topic_address to) [
        | none ↦ err panicked
        | some to_address ↦
            if not (str_eq (b.to_lowercase to_address) (b.to_lowercase b.wallet_address))
            then ok none
            else elim (topic_address from) [
              | none ↦ err panicked
              | some sender ↦ elim (parse_hex_u64 payload) [
                | none ↦ err (failed internal)
                | some amount ↦ ok (some (sender, amount))
              ]
            ]
      ]

  unfoldable pub scan_log : TxLog → Result Fault (Option (String × ℕ))
  unfolding scan_topics
  scan_log log =
      if not (str_eq (b.to_lowercase log.address) (b.to_lowercase b.usdc_contract))
      then ok none
      else scan_topics log.topics log.payload

  abbrev pub or_next :
      Result Fault (Option (String × ℕ))
      → Result Fault (Option (String × ℕ))
      → Result Fault (Option (String × ℕ))
  or_next (err e) next = err e
  or_next (ok none) next = next
  or_next (ok (some found)) next = ok (some found)

  unfoldable pub scan_logs : List TxLog → Result Fault (Option (String × ℕ))
  unfolding scan_log
  scan_logs [] = ok none
  scan_logs (log ∷ logs) = or_next (scan_log log) (scan_logs logs)

  abbrev pub is_from : Option String → String → Bool
  is_from none actual = true
  is_from (some expected) actual = str_eq (b.to_lowercase actual) (b.to_lowercase expected)

  abbrev pub from_mismatch : Option String → String → PaymentError
  from_mismatch none actual = sender_mismatch actual actual
  from_mismatch (some expected) actual = sender_mismatch expected actual

  -- The transfer of a receipt, tested against what is expected; no transfer has the amount zero
  unfoldable pub check_found : PaymentPayload → Option (String × ℕ) → Result Fault (String × ℕ)
  check_found payload none = err (failed (no_transfer_found payload.tx_hash))
  check_found payload (some (sender, amount)) =
      if amount == 0
      then err (failed (no_transfer_found payload.tx_hash))
      else if not (is_from payload.from sender)
      then err (failed (from_mismatch payload.from sender))
      else if not (is_amount payload.amount amount)
      then err (failed (mismatch payload.amount amount))
      else ok (sender, amount)

  abbrev pub Call : Type 0 → Type 0
  Call A = Exec W Fault A

  unfoldable pub get_transaction_receipt : String → Call (Option TxReceipt)
  unfolding rpc_result
  get_transaction_receipt tx_hash w =
      let (reply, w') = b.eth_get_transaction_receipt tx_hash w in (failing (rpc_result reply), w')

  unfoldable pub get_block_number : Call ℕ
  unfolding rpc_result parse_hex_u64
  get_block_number = do
    hex_block ← (λ w. let (reply, w') = b.eth_block_number w in (failing (rpc_result reply), w'))
    lift (or_internal (parse_hex_u64 hex_block))

  abbrev pub found_receipt : String → Option TxReceipt → Call TxReceipt
  found_receipt tx_hash none = raise (failed (tx_not_found tx_hash))
  found_receipt tx_hash (some receipt) = pure receipt

  -- `verify_usdc_transfer` from the receipt on
  unfoldable pub verify_receipt : PaymentPayload → TxReceipt → Call PaymentVerification
  unfolding get_block_number scan_logs check_found block_of
  verify_receipt payload receipt = do
    raise_if (not (str_eq receipt.status "0x1")) (failed (tx_failed payload.tx_hash))
    found ← lift (scan_logs receipt.logs)
    transfer ← lift (check_found payload found)
    block_number ← lift (or_internal (block_of receipt.block_number))
    current_block ← get_block_number
    pure (record {
      tx_hash = payload.tx_hash;
      amount_usdc = transfer.1;
      from = some transfer.0;
      to = b.wallet_address;
      confirmations = current_block - block_number;
      is_verified = true;
    })

  -- `verify_payment`, which is `verify_usdc_transfer`
  unfoldable pub verify_payment : PaymentPayload → Call PaymentVerification
  unfolding get_transaction_receipt verify_receipt
  verify_payment payload = do
    reply ← get_transaction_receipt payload.tx_hash
    receipt ← found_receipt payload.tx_hash reply
    verify_receipt payload receipt
