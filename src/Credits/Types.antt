-- ===== src/Credits/Types.antt =====
-- crates/x402-payments/src/types.rs and error.rs: balances, deposits, usage records and errors.
-- `Utc::now()` is the argument `now`; the id of a deposit, a random UUID, is the argument `id`.
use signal_bot_tee.Common.{
  ℕ, ◌+◌, ◌-◌, ◌%◌, String, Bool, true, false, Option, none, some, leb, saturating_add, u32_max,
  if◌then◌else◌, is_some, ◌||◌,
}

pub data Chain : Type 0 where
  base near solana : Chain

-- Amounts and names that an error carries are kept; its text for the reader is not.
pub data PaymentError : Type 0 where
  insufficient_credits : ℕ → ℕ → PaymentError
  user_not_found : String → PaymentError
  invalid_payload verification_failed settlement_failed : PaymentError
  duplicate_transaction : String → PaymentError
  unsupported_chain network_error rpc_error : PaymentError
  tx_not_found tx_failed : String → PaymentError
  invalid_tx_hash : PaymentError
  no_transfer_found : String → PaymentError
  sender_mismatch : String → String → PaymentError
  amount_mismatch : ℕ → ℕ → PaymentError
  encryption storage serialization config rate_limited internal : PaymentError

pub record CreditBalance : Type 0 where
  pub user_id : String
  pub credits_remaining : ℕ
  pub total_deposited : ℕ
  pub total_consumed : ℕ
  pub last_deposit_at : Option ℕ
  pub last_usage_at : Option ℕ
  pub created_at : ℕ

unfoldable pub new_balance : ℕ → String → CreditBalance
new_balance now user_id = record {
  user_id = user_id;
  credits_remaining = 0;
  total_deposited = 0;
  total_consumed = 0;
  last_deposit_at = none;
  last_usage_at = none;
  created_at = now;
}

-- `CreditBalance::add_credits`
unfoldable pub add_to_balance : ℕ → ℕ → CreditBalance → CreditBalance
add_to_balance now amount b = record b {
  credits_remaining = saturating_add b.credits_remaining amount;
  total_deposited = saturating_add b.total_deposited amount;
  last_deposit_at = some now;
}

-- `CreditBalance::deduct_credits`
unfoldable pub deduct_from_balance : ℕ → ℕ → CreditBalance → CreditBalance × Bool
deduct_from_balance now amount b =
    if leb amount b.credits_remaining
    then (
      record b {
        credits_remaining = b.credits_remaining - amount;
        total_consumed = saturating_add b.total_consumed amount;
        last_usage_at = some now;
      },
      true,
    )
    else (b, false)

-- `CreditBalance::has_credits`
unfoldable pub balance_has_credits : ℕ → CreditBalance → Bool
balance_has_credits amount b = leb amount b.credits_remaining

pub data DepositStatus : Type 0 where
  pending confirmed failed : DepositStatus

pub record Deposit : Type 0 where
  pub id : String
  pub user_id : String
  pub chain : Chain
  pub tx_hash : String
  pub amount_usdc : ℕ
  pub credits_granted : ℕ
  pub status : DepositStatus
  pub created_at : ℕ
  pub confirmed_at : Option ℕ

-- `Deposit::new_pending`
unfoldable pub new_pending : ℕ → String → String → Chain → String → ℕ → ℕ → Deposit
new_pending now id user_id chain tx_hash amount_usdc credits_granted = record {
  id = id;
  user_id = user_id;
  chain = chain;
  tx_hash = tx_hash;
  amount_usdc = amount_usdc;
  credits_granted = credits_granted;
  status = pending;
  created_at = now;
  confirmed_at = none;
}

-- `Deposit::confirm`
unfoldable pub confirm : ℕ → Deposit → Deposit
confirm now d = record d { status = confirmed; confirmed_at = some now }

pub record UsageRecord : Type 0 where
  pub user_id : String
  pub conversation_id : String
  pub prompt_tokens : ℕ
  pub completion_tokens : ℕ
  pub total_tokens : ℕ
  pub credits_consumed : ℕ
  pub timestamp : ℕ

-- `UsageRecord::new`; the sum of two `u32` wraps in a release build.
unfoldable pub new_usage : ℕ → String → String → ℕ → ℕ → ℕ → UsageRecord
new_usage now user_id conversation_id prompt_tokens completion_tokens credits_consumed = record {
  user_id = user_id;
  conversation_id = conversation_id;
  prompt_tokens = prompt_tokens;
  completion_tokens = completion_tokens;
  total_tokens = (prompt_tokens + completion_tokens) % (u32_max + 1);
  credits_consumed = credits_consumed;
  timestamp = now;
}

pub record OperatorAddresses : Type 0 where
  pub base : Option String
  pub near : Option String
  pub solana : Option String

-- `OperatorAddresses::get`
unfoldable pub operator_for : Chain → OperatorAddresses → Option String
operator_for Chain.base a = a.base
operator_for Chain.near a = a.near
operator_for Chain.solana a = a.solana

-- `OperatorAddresses::has_any`
unfoldable pub has_any : OperatorAddresses → Bool
has_any a = is_some a.base || is_some a.near || is_some a.solana
