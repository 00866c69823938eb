-- ===== src/Payments/Chains/Near.antt =====
-- crates/x402-payments/src/chains/near.rs: the verification of a deposit on NEAR, and the facilitator.
-- The node's answers, the decoding of base64 and JSON, and a signed transfer are parameters.
pub mod Depositing
pub mod Transfer
pub mod Sending
use signal_bot_tee.Common.{
  ℕ, String, str_eq, Bool, true, false, not, Option, none, some, List, [], ◌∷◌, Result, ok, err,
  if◌then◌else◌,
}
use signal_bot_tee.Common.Exec.{Exec, pure, raise, raise_if, lift, ok_or, ◌>>=◌, ◌>>◌}
use signal_bot_tee.Common.Numeral.{parse_u64}
use signal_bot_tee.Credits.Types.{
  near, PaymentError, internal, invalid_payload, tx_failed, verification_failed, no_transfer_found,
}
use signal_bot_tee.Payments.Facilitator.{PaymentVerification, PaymentPayload, Facilitator, TxResult}
use signal_bot_tee.Payments.Chains.Rpc.{JsonRpcResponse, rpc_result, is_amount, mismatch}

pub record FtTransferArgs : Type 0 where
  pub receiver_id : String
  pub amount : String
  pub memo : Option String

pub data ActionInfo : Type 0 where
  function_call : String → String → ActionInfo
  other_action : ActionInfo

pub data TxExecutionStatus : Type 0 where
  success_status failure_status : TxExecutionStatus

-- `TransactionInfo` and the rest of `TxStatusResult` that is read
pub record TxStatusResult : Type 0 where
  pub status : TxExecutionStatus
  pub receiver_id : String
  pub actions : List ActionInfo

pub record NearFacilitator (W : Type 0) : Type 0 where
  pub usdc_contract : String
  pub deposit_account : String
  -- the arguments of a call: base64, then JSON
  pub decode_args : String → Option FtTransferArgs
  -- `tx` of a hash and a sender, waiting for EXECUTED
  pub tx : String → String → W → Result PaymentError (JsonRpcResponse TxStatusResult) × W
  -- `query` of `ft_balance_of`; a text in JSON, if the bytes are one
  pub ft_balance_of :
      String → String → W → Result PaymentError (JsonRpcResponse (Option String)) × W
  -- what `transfer_to` builds, signs and broadcasts
  pub broadcast_transfer : String → ℕ → W → Result PaymentError TxResult × W

abbrev pub is_failure : TxExecutionStatus → Bool
is_failure success_status = false
is_failure failure_status = true

abbrev pub balance_of : Option String → Result PaymentError ℕ
balance_of none = err internal
balance_of (some text) = elim (parse_u64 text) [ none ↦ err internal | some balance ↦ ok balance ]

module _ {W : Type 0} (n : NearFacilitator W) where
  abbrev pub Call : Type 0 → Type 0
  Call A = Exec W PaymentError A

  unfoldable pub get_tx_status_internal : String → String → Call TxStatusResult
  unfolding rpc_result
  get_tx_status_internal tx_hash sender w =
      let (reply, w') = n.tx tx_hash sender w in (rpc_result reply, w')

  -- The loop over the actions: the first call of `ft_transfer` decides. Where the text of an error
  -- names no transaction, the account stands for it.
  unfoldable pub find_transfer : List ActionInfo → Result PaymentError FtTransferArgs
  find_transfer [] = err (no_transfer_found n.deposit_account)
  find_transfer (other_action ∷ actions) = find_transfer actions
  find_transfer (function_call method_name args ∷ actions) =
      let rest = find_transfer actions in
      if str_eq method_name "ft_transfer"
      then elim (n.decode_args args) [ none ↦ err internal | some decoded ↦ ok decoded ]
      else rest

  -- A memo that differs is only logged.
  unfoldable pub check_transfer :
      PaymentPayload → String → TxStatusResult → Result PaymentError PaymentVerification
  unfolding find_transfer parse_u64
  check_transfer payload sender result =
      if is_failure result.status
      then err (tx_failed payload.tx_hash)
      else if not (str_eq result.receiver_id n.usdc_contract)
      then err verification_failed
      else elim (find_transfer result.actions) [
        | err e ↦ err e
        | ok args ↦
            if not (str_eq args.receiver_id n.deposit_account)
            then err (no_transfer_found payload.tx_hash)
            else elim (parse_u64 args.amount) [
              | none ↦ err internal
              | some amount ↦
                  if not (is_amount payload.amount amount)
                  then err (mismatch payload.amount amount)
                  else ok (record {
                    tx_hash = payload.tx_hash;
                    amount_usdc = amount;
                    from = some sender;
                    to = n.deposit_account;
                    confirmations = 1;
                    is_verified = true;
                  })
            ]
      ]

  -- `verify_payment`, which is `verify_usdc_transfer`
  unfoldable pub verify_payment : PaymentPayload → Call PaymentVerification
  unfolding get_tx_status_internal check_transfer
  verify_payment payload = do
    sender ← ok_or payload.from invalid_payload
    result ← get_tx_status_internal payload.tx_hash sender
    lift (check_transfer payload sender result)

  unfoldable pub get_ft_balance : String → String → Call ℕ
  unfolding rpc_result
  get_ft_balance token account = do
    text ← (λ w. let (reply, w') = n.ft_balance_of token account w in (rpc_result reply, w'))
    lift (balance_of text)

  -- `impl ChainFacilitator for NearFacilitator`
  unfoldable pub near_facilitator : Facilitator W
  unfolding verify_payment get_ft_balance
  near_facilitator = record {
    chain = near;
    deposit_address = n.deposit_account;
    verify_payment = verify_payment;
    get_deposit_wallet_balance = get_ft_balance n.usdc_contract n.deposit_account;
    transfer_to = n.broadcast_transfer;
  }
