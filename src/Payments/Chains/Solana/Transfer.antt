-- ===== src/Payments/Chains/Solana/Transfer.antt =====
-- crates/x402-payments/src/chains/solana.rs: a transfer to the operator, the status of a transaction and the
-- health of the node. The crates of Solana and SPL, and the node, are parameters.
use signal_bot_tee.Common.{
  ℕ, String, text_append, str_eq, Bool, true, false, Option, none, some, List, [], ◌∷◌, ◌++◌,
  Result, ok, err, if◌then◌else◌, unwrap_or,
}
use signal_bot_tee.Common.Exec.{Exec, pure, ok_or, ◌>>=◌}
use signal_bot_tee.Credits.Types.{PaymentError, internal, rpc_error, tx_failed}
use signal_bot_tee.Payments.Facilitator.{TxResult}
use signal_bot_tee.Payments.Chains.Rpc.{JsonRpcResponse, rpc_result}
use signal_bot_tee.Payments.Chains.Base.Wallet.{TxStatus, pending_tx, confirmed_tx, failed_tx}

-- `create_associated_token_account` of a payer, an owner and a mint, and `transfer_checked` of a source,
-- a mint, a destination, an owner, an amount and the decimals
pub data Instruction : Type 0 where
  create_associated_token_account : String → String → String → Instruction
  transfer_checked : String → String → String → String → ℕ → ℕ → Instruction

-- `SignatureStatus`; the error as its Debug text
pub record SignatureStatus : Type 0 where
  pub confirmations : Option ℕ
  pub failure : Option String
  pub confirmation_status : Option String

pub record SolanaWallet (W : Type 0) : Type 0 where
  pub enabled : Bool
  pub usdc_mint : String
  pub wallet_pubkey : String
  pub parse_pubkey : String → Option String
  -- wallet and mint
  pub get_associated_token_address : String → String → String
  -- whether the node shows the account
  pub get_account : String → W → Bool × W
  -- what spl_token makes of a `transfer_checked`, which may be refused
  pub is_instruction : Instruction → Bool
  pub get_latest_blockhash : W → Option String × W
  -- the instructions, signed and paid by the wallet, on a block; the signature, or the error's text
  pub send_and_confirm : List Instruction → String → W → Result String String × W
  pub get_signature_statuses :
      List String → W → Result PaymentError (JsonRpcResponse (List (Option SignatureStatus))) × W
  pub get_slot : W → Result PaymentError (JsonRpcResponse ℕ) × W

module _ {W : Type 0} (n : SolanaWallet W) where
  abbrev pub token_account : String → String → String
  token_account pubkey mint = n.get_associated_token_address pubkey mint

  -- An account that the node does not show, or any error, has it created first.
  unfoldable pub account_instructions : String → String → Bool → List Instruction
  account_instructions destination mint true = []
  account_instructions destination mint false =
      create_associated_token_account n.wallet_pubkey destination mint ∷ []

  unfoldable pub transfer_instruction : String → String → ℕ → Instruction
  transfer_instruction destination mint amount =
      transfer_checked (token_account n.wallet_pubkey mint) mint (token_account destination mint)
        n.wallet_pubkey amount 6

  abbrev pub checked : Instruction → Exec W PaymentError Instruction
  checked instruction w =
      ((if n.is_instruction instruction then ok instruction else err internal), w)

  abbrev pub blockhash : Exec W PaymentError String
  blockhash w =
      let (reply, w') = n.get_latest_blockhash w in
      ((elim reply [ none ↦ err rpc_error | some hash ↦ ok hash ]), w')

  abbrev pub confirmed : Result String String → Result PaymentError TxResult
  confirmed (ok signature) =
      ok (record { tx_hash = signature; block_number = none; success = true })
  confirmed (err e) = err (tx_failed (text_append "Transfer failed: " e))

  abbrev pub send : List Instruction → String → Exec W PaymentError TxResult
  send instructions hash w =
      let (reply, w') = n.send_and_confirm instructions hash w in (confirmed reply, w')

  unfoldable pub transfer_to : String → ℕ → Exec W PaymentError TxResult
  unfolding account_instructions transfer_instruction
  transfer_to destination amount = do
    usdc_mint ← ok_or (n.parse_pubkey n.usdc_mint) internal
    destination_pubkey ← ok_or (n.parse_pubkey destination) internal
    there ← (λ w.
        let (b, w') = n.get_account (token_account destination_pubkey usdc_mint) w in (ok b, w'))
    transfer ← checked (transfer_instruction destination_pubkey usdc_mint amount)
    recent_blockhash ← blockhash
    send (account_instructions destination_pubkey usdc_mint there ++ (transfer ∷ []))
        recent_blockhash

  -- "finalized", with one confirmation where the node counts none
  abbrev pub status_of : SignatureStatus → TxStatus
  status_of status = elim status.failure [
    | some e ↦ failed_tx e
    | none ↦
        if str_eq (unwrap_or status.confirmation_status "") "finalized"
        then confirmed_tx (unwrap_or status.confirmations 1)
        else pending_tx
  ]

  abbrev pub first_status : List (Option SignatureStatus) → TxStatus
  first_status [] = pending_tx
  first_status (none ∷ statuses) = pending_tx
  first_status (some status ∷ statuses) = status_of status

  unfoldable pub get_tx_status : String → Exec W PaymentError TxStatus
  unfolding rpc_result
  get_tx_status tx_hash = do
    statuses ←
        (λ w. let (reply, w') = n.get_signature_statuses (tx_hash ∷ []) w in (rpc_result reply, w'))
    pure (first_status statuses)

  unfoldable pub health_check : Exec W PaymentError Bool
  unfolding rpc_result
  health_check w =
      if n.enabled
      then (let (reply, w') = n.get_slot w in
          ((elim (rpc_result reply) [ ok slot ↦ ok true | err e ↦ ok false ]), w'))
      else (ok false, w)
