-- ===== src/Payments/Chains/Base/Wallet.antt =====
-- crates/x402-payments/src/chains/base.rs: the balance of the deposit wallet, the status of a transaction,
-- a transfer and the health of the node. alloy's provider and its signer are parameters.
use signal_bot_tee.Common.{
  ℕ, zero, suc, ◌-◌, String, text_append, str_eq, Bool, true, false, Option, none, some, Result, ok,
  err, if◌then◌else◌,
}
use signal_bot_tee.Common.Exec.{Exec, pure, lift, ◌>>=◌}
use signal_bot_tee.Common.Trim.{trim_start_matches, char_count}
use signal_bot_tee.Credits.Types.{PaymentError, internal}
use signal_bot_tee.Payments.Facilitator.{TxResult}
use signal_bot_tee.Payments.Chains.Rpc.{JsonRpcResponse, rpc_result}
use signal_bot_tee.Payments.Chains.Base.{
  BaseFacilitator, TxReceipt, Call, failing, or_internal, parse_hex_u64, block_of,
  get_transaction_receipt, get_block_number,
}

-- `TxStatus` of types.rs
pub data TxStatus : Type 0 where
  pending_tx : TxStatus
  confirmed_tx : ℕ → TxStatus
  failed_tx : String → TxStatus

-- What the wallet uses besides the facilitator: `eth_call` of a contract, and alloy
pub record BaseWallet (W : Type 0) : Type 0 where
  pub enabled : Bool
  pub rpc_url : String
  pub parse_address : String → Option String
  pub is_url : String → Bool
  pub eth_call : String → String → W → Result PaymentError (JsonRpcResponse String) × W
  -- token, destination and amount of a signed `transfer` that waits for its receipt
  pub send_transfer : String → String → ℕ → W → Option TxResult × W

-- `format!("{:0>64}", s)`
abbrev pub zeros_before : ℕ → String → String
zeros_before zero s = s
zeros_before (suc n) s = text_append "0" (zeros_before n s)

unfoldable pub pad_address : String → String
unfolding trim_start_matches
pad_address address =
    let digits = trim_start_matches "0x" address in zeros_before (64 - char_count digits) digits

module _ {W : Type 0} (b : BaseFacilitator W) (a : BaseWallet W) where
  unfoldable pub get_erc20_balance : String → String → Call b ℕ
  unfolding rpc_result parse_hex_u64 pad_address
  get_erc20_balance token address = do
    result ← (λ w.
        let (reply, w') = a.eth_call token (text_append "0x70a08231" (pad_address address)) w in
        (failing (rpc_result reply), w'))
    lift (or_internal (parse_hex_u64 result))

  unfoldable pub get_deposit_wallet_balance : Call b ℕ
  unfolding get_erc20_balance
  get_deposit_wallet_balance = get_erc20_balance b.usdc_contract b.wallet_address

  -- Any error of alloy is an internal one.
  unfoldable pub transfer_to : String → ℕ → Exec W PaymentError TxResult
  transfer_to destination amount w = elim (a.parse_address destination) [
    | none ↦ (err internal, w)
    | some to_address ↦ elim (a.parse_address b.usdc_contract) [
      | none ↦ (err internal, w)
      | some usdc_address ↦
          if a.is_url a.rpc_url
          then (let (sent, w') = a.send_transfer usdc_address to_address amount w in
              ((elim sent [ none ↦ err internal | some r ↦ ok r ]), w'))
          else (err internal, w)
    ]
  ]

  -- `unwrap_or(block_number)` where the current block cannot be read
  abbrev pub confirmations_of : ℕ → Call b TxStatus
  confirmations_of block_number w =
      let (r, w') = get_block_number b w in
      (
        ok (confirmed_tx ((elim r [ ok current ↦ current | err e ↦ block_number ]) - block_number)),
        w',
      )

  abbrev pub status_of : Option TxReceipt → Call b TxStatus
  status_of none = pure pending_tx
  status_of (some receipt) =
      if str_eq receipt.status "0x1"
      then (lift (or_internal (block_of receipt.block_number)) >>= confirmations_of)
      else pure (failed_tx "Transaction reverted")

  unfoldable pub get_tx_status : String → Call b TxStatus
  unfolding get_transaction_receipt get_block_number block_of
  get_tx_status tx_hash = do reply ← get_transaction_receipt b tx_hash; status_of reply

  unfoldable pub health_check : Call b Bool
  unfolding get_block_number
  health_check w =
      if a.enabled
      then (let (r, w') = get_block_number b w in
          ((elim r [ ok block ↦ ok true | err e ↦ ok false ]), w'))
      else (ok false, w)
