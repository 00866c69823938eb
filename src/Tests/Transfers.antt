-- ===== src/Tests/Transfers.antt =====
-- Transfers on Solana, and on NEAR from an account that is funded, and from one that is not.
use signal_bot_tee.Common.{
  ℕ, ◌+◌, ◌≡◌, refl, true, false, not, none, some, [], ◌∷◌, ok, err, str_eq, text_append, length,
  if◌then◌else◌,
}
use signal_bot_tee.Credits.Types.{internal}
use signal_bot_tee.Payments.Chains.Near.Transfer.{
  NearWallet, answered, success_value, transfer_to, transfer_transaction, broadcast_tx_commit,
  get_access_key, get_latest_block, ensure_account_funded,
}
use signal_bot_tee.Payments.Chains.Base.Wallet.{pending_tx}
use signal_bot_tee.Payments.Chains.Solana.Transfer as Solana
use signal_bot_tee.Payments.Chains.Solana.Transfer.{SolanaWallet}
use signal_bot_tee.Payments.Chains.Solana.Instructions.{transfer_to-IsSent, IsSent}
use signal_bot_tee.Payments.Chains.Near.Sending.{transfer_to-IsTransfer, IsTransfer}

-- The world is the nonce of the access key.
abbrev wallet : ℕ → NearWallet ℕ
wallet yocto = record {
  enabled = true;
  usdc_contract = "usdc.near";
  deposit_account = "ab12";
  view_account = λ account w. (answered yocto, w);
  view_access_key = λ account w. (answered w, w);
  latest_block = λ w. (some "B7", w);
  parse_account = λ name. some name;
  transfer_args = λ receiver amount memo. some "{}";
  sign = λ tx. "sig";
  broadcast = λ tx signature w. (some (success_value, "H1"), tx.nonce);
  block = λ w. (ok (record { result = some tt; has_error = true }), w);
}

unfunded : transfer_to (wallet 5) "op.near" 20000000 41 ≡ (err internal, 41)
unfolding transfer_to ensure_account_funded
unfunded = refl

transfer_to-IsTransfer_example :
    IsTransfer
      (wallet 1000000000000000000000)
      "op.near"
      20000000
      41
      (record { tx_hash = "H1"; block_number = none; success = true })
      42
unfolding transfer_to ensure_account_funded get_access_key get_latest_block broadcast_tx_commit
    transfer_transaction
transfer_to-IsTransfer_example =
    transfer_to-IsTransfer (wallet 1000000000000000000000) "op.near" 20000000 41 refl

-- The node shows every account but the operator's.
abbrev sol_wallet : SolanaWallet ℕ
sol_wallet = record {
  enabled = true;
  usdc_mint = "Usdc";
  wallet_pubkey = "Me";
  parse_pubkey = λ s. if str_eq s "" then none else some s;
  get_associated_token_address = λ owner mint. text_append owner mint;
  get_account = λ account w. (not (str_eq account "OpUsdc"), w);
  is_instruction = λ i. true;
  get_latest_blockhash = λ w. (some "H", w);
  send_and_confirm = λ instructions hash w. (ok "S1", w + length instructions);
  get_signature_statuses =
      λ hashes w. (ok (record { result = some (none ∷ []); has_error = false }), w);
  get_slot = λ w. (ok (record { result = some 9; has_error = false }), w);
}

unknown_signature : Solana.get_tx_status sol_wallet "S0" 0 ≡ (ok pending_tx, 0)
unfolding Solana.get_tx_status
unknown_signature = refl

-- Two instructions are sent, since the operator has no account yet.
transfer_to-IsSent_example :
    IsSent sol_wallet "Op" 7 40 (record { tx_hash = "S1"; block_number = none; success = true }) 42
unfolding Solana.transfer_to Solana.account_instructions
transfer_to-IsSent_example = transfer_to-IsSent sol_wallet "Op" 7 40 refl
