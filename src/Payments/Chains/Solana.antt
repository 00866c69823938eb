-- ===== src/Payments/Chains/Solana.antt =====
-- crates/x402-payments/src/chains/solana.rs: the verification of a deposit on Solana, and the
-- facilitator. The node's answers, the token accounts and a signed transfer are parameters.
pub mod Soundness
pub mod Transfer
pub mod Instructions
use signal_bot_tee.Common.{
  ℕ, ◌-◌, ◌==◌, ltb, String, str_eq, Bool, true, false, not, ◌&&◌, Option, none, some, List, [],
  ◌∷◌, Result, ok, err, if◌then◌else◌, unwrap_or,
}
use signal_bot_tee.Common.Exec.{Exec, pure, raise, raise_if, lift, ok_or, ◌>>=◌, ◌>>◌}
use signal_bot_tee.Common.Text.{contains_text}
use signal_bot_tee.Common.Numeral.{parse_u64}
use signal_bot_tee.Credits.Types.{
  solana, PaymentError, internal, rpc_error, tx_not_found, tx_failed, no_transfer_found,
  sender_mismatch,
}
use signal_bot_tee.Payments.Facilitator.{PaymentVerification, PaymentPayload, Facilitator, TxResult}
use signal_bot_tee.Payments.Chains.Rpc.{JsonRpcResponse, rpc_result, is_amount, mismatch}

-- A `TokenBalance`, with the amount of its `UiTokenAmount`
pub record TokenBalance : Type 0 where
  pub account_index : ℕ
  pub mint : String
  pub owner : Option String
  pub amount : String

-- What of a `TransactionResponse` is read: its `TransactionMeta`
pub record TransactionMeta : Type 0 where
  pub has_err : Bool
  pub pre_token_balances : Option (List TokenBalance)
  pub post_token_balances : Option (List TokenBalance)

pub record SolanaFacilitator (W : Type 0) : Type 0 where
  pub usdc_mint : String
  pub wallet_pubkey : String
  pub rpc_get_transaction :
      String → W → Result PaymentError (JsonRpcResponse (Option TransactionMeta)) × W
  -- whether a text is a public key
  pub is_pubkey : String → Bool
  -- the balance of the wallet's token account, or the text of the client's error
  pub get_token_account_balance : W → Result String String × W
  -- what `transfer_to` builds, signs and sends
  pub send_transfer : String → ℕ → W → Result PaymentError TxResult × W

-- `entry.ui_token_amount.amount.parse().unwrap_or(0)`
unfoldable pub amount_of : TokenBalance → ℕ
unfolding parse_u64
amount_of entry = unwrap_or (parse_u64 entry.amount) 0

-- `balances.iter().find(|p| p.account_index == index)`
unfoldable pub find_account : ℕ → List TokenBalance → Option TokenBalance
find_account index [] = none
find_account index (entry ∷ entries) =
    if entry.account_index == index then some entry else find_account index entries

abbrev pub amount_at : ℕ → List TokenBalance → ℕ
amount_at index entries = elim (find_account index entries) [
  | none ↦ 0
  | some entry ↦ amount_of entry
]

-- Whether an account held more before than after
abbrev pub is_payer : TokenBalance → Option TokenBalance → Bool
is_payer before none = false
is_payer before (some after) = ltb (amount_of after) (amount_of before)

-- The owner of the first account of the mint that has less than before
unfoldable pub find_sender : String → List TokenBalance → List TokenBalance → Option String
unfolding amount_of find_account
find_sender mint post [] = none
find_sender mint post (before ∷ pre) =
    let rest = find_sender mint post pre in
    if str_eq before.mint mint && is_payer before (find_account before.account_index post)
    then before.owner
    else rest

abbrev pub is_from : Option String → Option String → Bool
is_from none actual = true
is_from (some expected) none = true
is_from (some expected) (some actual) = str_eq actual expected

abbrev pub balances : Option (List TokenBalance) → List TokenBalance
balances entries = unwrap_or entries []

unfoldable pub balance_of : Result String String → Result PaymentError ℕ
unfolding contains_text
balance_of (ok amount) = elim (parse_u64 amount) [ none ↦ err internal | some balance ↦ ok balance ]
balance_of (err text) = if contains_text "could not find account" text then ok 0 else err rpc_error

module _ {W : Type 0} (n : SolanaFacilitator W) where
  -- A USDC account of the wallet
  abbrev pub is_deposit_account : TokenBalance → Bool
  is_deposit_account entry =
      str_eq entry.mint n.usdc_mint && str_eq (unwrap_or entry.owner "") n.wallet_pubkey

  -- The loop over the balances after the transaction: `pre` and `post` are all of them.
  unfoldable pub find_transfer :
      List TokenBalance → List TokenBalance → List TokenBalance → Option (Option String × ℕ)
  unfolding amount_of find_account find_sender
  find_transfer pre post [] = none
  find_transfer pre post (entry ∷ entries) =
      let rest = find_transfer pre post entries in
      let before = amount_at entry.account_index pre in
      if is_deposit_account entry && ltb before (amount_of entry)
      then some (find_sender n.usdc_mint post pre, amount_of entry - before)
      else rest

  unfoldable pub check_found :
      PaymentPayload → Option (Option String × ℕ) → Result PaymentError PaymentVerification
  check_found payload none = err (no_transfer_found payload.tx_hash)
  check_found payload (some (sender, amount)) =
      if not (is_from payload.from sender)
      then err (sender_mismatch (unwrap_or payload.from "") (unwrap_or sender ""))
      else if not (is_amount payload.amount amount)
      then err (mismatch payload.amount amount)
      else ok (record {
        tx_hash = payload.tx_hash;
        amount_usdc = amount;
        from = sender;
        to = n.wallet_pubkey;
        confirmations = 1;
        is_verified = true;
      })

  abbrev pub Call : Type 0 → Type 0
  Call A = Exec W PaymentError A

  unfoldable pub get_transaction : String → Call (Option TransactionMeta)
  unfolding rpc_result
  get_transaction signature w =
      let (reply, w') = n.rpc_get_transaction signature w in (rpc_result reply, w')

  -- `verify_payment`, which is `verify_usdc_transfer`
  unfoldable pub verify_payment : PaymentPayload → Call PaymentVerification
  unfolding get_transaction find_transfer check_found
  verify_payment payload = do
    reply ← get_transaction payload.tx_hash
    meta ← ok_or reply (tx_not_found payload.tx_hash)
    raise_if meta.has_err (tx_failed payload.tx_hash)
    lift (
        check_found payload (
          find_transfer (balances meta.pre_token_balances) (balances meta.post_token_balances)
            (balances meta.post_token_balances)))

  unfoldable pub get_deposit_wallet_balance : Call ℕ
  get_deposit_wallet_balance = do
    raise_if (not (n.is_pubkey n.usdc_mint)) internal
    (λ w. let (reply, w') = n.get_token_account_balance w in (balance_of reply, w'))

  -- `impl ChainFacilitator for SolanaFacilitator`
  unfoldable pub solana_facilitator : Facilitator W
  unfolding verify_payment get_deposit_wallet_balance
  solana_facilitator = record {
    chain = solana;
    deposit_address = n.wallet_pubkey;
    verify_payment = verify_payment;
    get_deposit_wallet_balance = get_deposit_wallet_balance;
    transfer_to = n.send_transfer;
  }
