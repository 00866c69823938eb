-- ===== src/Payments/Chains/Near/Transfer.antt =====
-- crates/x402-payments/src/chains/near.rs: what a transfer to the operator is, and the health of the node.
-- The node, the parsing of account names, JSON and the signature are parameters.
use signal_bot_tee.Common.{
  ℕ, String, text_append, Bool, true, false, ltb, ◌+◌, ◌%◌, ◌^◌, Option, none, some, Result, ok,
  err, if◌then◌else◌,
}
use signal_bot_tee.Common.Exec.{Exec, ok_or, ◌>>=◌, ◌>>◌}
use signal_bot_tee.Credits.Types.{PaymentError, internal, rpc_error, tx_failed}
use signal_bot_tee.Payments.Facilitator.{TxResult}
use signal_bot_tee.Payments.Chains.Rpc.{JsonRpcResponse, rpc_result}

-- `TransactionV0` with its one `FunctionCallAction`
pub record Transaction : Type 0 where
  pub signer_id : String
  pub nonce : ℕ
  pub receiver_id : String
  pub block_hash : String
  pub method_name : String
  pub args : String
  pub gas : ℕ
  pub deposit : ℕ

-- `FinalExecutionStatus`; the text of a failure
pub data FinalExecutionStatus : Type 0 where
  success_value not_final : FinalExecutionStatus
  failure : String → FinalExecutionStatus

-- The answer to a query, if it is of the kind asked for
pub data QueryAnswer (A : Type 0) : Type 0 where
  call_failed unexpected_kind : QueryAnswer A
  answered : A → QueryAnswer A

pub record NearWallet (W : Type 0) : Type 0 where
  pub enabled : Bool
  pub usdc_contract : String
  pub deposit_account : String
  -- the balance in yoctoNEAR, and the nonce of the access key
  pub view_account : String → W → QueryAnswer ℕ × W
  pub view_access_key : String → W → QueryAnswer ℕ × W
  -- the hash of the last final block
  pub latest_block : W → Option String × W
  pub parse_account : String → Option String
  -- receiver, amount and memo of `ft_transfer`, in JSON
  pub transfer_args : String → ℕ → String → Option String
  pub sign : Transaction → String
  -- a transaction with its signature; its hash comes back.
  pub broadcast : Transaction → String → W → Option (FinalExecutionStatus × String) × W
  -- the final block through JSON-RPC
  pub block : W → Result PaymentError (JsonRpcResponse (Unit {0})) × W

-- 0.001 NEAR in yoctoNEAR
abbrev pub min_balance : ℕ
min_balance = 1000000000000000000000

abbrev pub asked : {A : Type 0} → QueryAnswer A → Result PaymentError A
asked call_failed = err rpc_error
asked unexpected_kind = err rpc_error
asked (answered a) = ok a

abbrev pub funded : QueryAnswer ℕ → Result PaymentError (Unit {0})
funded call_failed = err internal
funded unexpected_kind = err rpc_error
funded (answered amount) = if ltb amount min_balance then err internal else ok tt

abbrev pub committed : Option (FinalExecutionStatus × String) → Result PaymentError TxResult
committed none = err rpc_error
committed (some (success_value, hash)) =
    ok (record { tx_hash = hash; block_number = none; success = true })
committed (some (failure e, hash)) = err (tx_failed (text_append "Transaction failed: " e))
committed (some (not_final, hash)) =
    ok (record { tx_hash = hash; block_number = none; success = false })

module _ {W : Type 0} (n : NearWallet W) where
  unfoldable pub ensure_account_funded : Exec W PaymentError (Unit {0})
  ensure_account_funded w =
      let (reply, w') = n.view_account n.deposit_account w in (funded reply, w')

  unfoldable pub get_access_key : Exec W PaymentError ℕ
  get_access_key w = let (reply, w') = n.view_access_key n.deposit_account w in (asked reply, w')

  unfoldable pub get_latest_block : Exec W PaymentError String
  get_latest_block w =
      let (reply, w') = n.latest_block w in
      ((elim reply [ none ↦ err rpc_error | some hash ↦ ok hash ]), w')

  unfoldable pub broadcast_tx_commit : Transaction → String → Exec W PaymentError TxResult
  broadcast_tx_commit tx signature w =
      let (reply, w') = n.broadcast tx signature w in (committed reply, w')

  -- The nonce is a u64: past its end a release build goes round.
  unfoldable pub transfer_transaction : String → String → ℕ → String → Transaction
  transfer_transaction contract args nonce block_hash = record {
    signer_id = n.deposit_account;
    nonce = (nonce + 1) % 2 ^ 64;
    receiver_id = contract;
    block_hash = block_hash;
    method_name = "ft_transfer";
    args = args;
    gas = 30000000000000;
    deposit = 1;
  }

  unfoldable pub transfer_to : String → ℕ → Exec W PaymentError TxResult
  unfolding ensure_account_funded get_access_key get_latest_block broadcast_tx_commit
      transfer_transaction
  transfer_to destination amount = do
    ensure_account_funded
    receiver_id ← ok_or (n.parse_account destination) internal
    nonce ← get_access_key
    block_hash ← get_latest_block
    args ←
        ok_or (n.transfer_args receiver_id amount (text_append "Sweep to operator " destination))
          internal
    usdc_contract ← ok_or (n.parse_account n.usdc_contract) internal
    let tx = transfer_transaction usdc_contract args nonce block_hash
    broadcast_tx_commit tx (n.sign tx)

  -- `health_check`: an error of the node is no error of the check.
  unfoldable pub health_check : Exec W PaymentError Bool
  unfolding rpc_result
  health_check w =
      if n.enabled
      then (let (reply, w') = n.block w in
          ((elim (rpc_result reply) [ ok b ↦ ok true | err e ↦ ok false ]), w'))
      else (ok false, w)
