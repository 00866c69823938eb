-- ===== src/Credits/Store/Data.antt =====
-- What `CreditStore` does under its lock, in crates/x402-payments/src/credits/store.rs.
pub mod Invariant
pub mod Preserve
pub mod Outcomes
pub mod Trace
use signal_bot_tee.Common.{
  ℕ, ◌+◌, ◌%◌, String, Bool, Option, none, some, List, [], ◌∷◌, ◌++◌, ltb, unwrap_or, u64_max,
  length, keep_if, sum_by, str_eq, if◌then◌else◌, Result, ok, err,
}
use signal_bot_tee.Common.Table
use signal_bot_tee.Common.Table.{Table}
use signal_bot_tee.Common.StringSet
use signal_bot_tee.Common.StringSet.{StringSet}
use signal_bot_tee.Credits.Types.{
  CreditBalance, Deposit, UsageRecord, PaymentError, insufficient_credits, user_not_found,
  duplicate_transaction, new_balance, add_to_balance, deduct_from_balance, balance_has_credits,
}

pub record CreditStoreData : Type 0 where
  pub version : ℕ
  pub balances : Table CreditBalance
  pub deposits : List Deposit
  pub usage_log : List UsageRecord
  pub processed_tx_hashes : StringSet

abbrev pub empty_data : CreditStoreData
empty_data = record {
  version = 1;
  balances = [];
  deposits = [];
  usage_log = [];
  processed_tx_hashes = [];
}

unfoldable pub get_balance : ℕ → String → CreditStoreData → CreditBalance
get_balance now user_id d = unwrap_or (Table.get user_id d.balances) (new_balance now user_id)

unfoldable pub has_credits : ℕ → String → ℕ → CreditStoreData → Bool
unfolding get_balance balance_has_credits
has_credits now user_id required d = balance_has_credits required (get_balance now user_id d)

-- The block of `add_credits` that holds the write lock.
unfoldable pub grant :
    ℕ → Deposit → CreditStoreData → Result PaymentError CreditBalance × CreditStoreData
grant now deposit d =
    let entry =
      unwrap_or (Table.get deposit.user_id d.balances) (new_balance now deposit.user_id) in
    let balance = add_to_balance now deposit.credits_granted entry in
    if StringSet.contains deposit.tx_hash d.processed_tx_hashes
    then (err (duplicate_transaction deposit.tx_hash), d)
    else (
      ok balance,
      record d {
        processed_tx_hashes = StringSet.insert deposit.tx_hash d.processed_tx_hashes;
        deposits = d.deposits ++ deposit ∷ [];
        balances = Table.put deposit.user_id balance d.balances;
      },
    )

-- `data.balances.get(user_id).map(|b| b.credits_remaining).unwrap_or(0)`
unfoldable pub available_credits : String → CreditStoreData → ℕ
available_credits user_id d = elim (Table.get user_id d.balances) [
  | none ↦ 0
  | some b ↦ b.credits_remaining
]

-- The end of the locked block of `deduct_credits`, after the usage was pushed.
unfoldable pub charge :
    ℕ
    → String
    → ℕ
    → Option CreditBalance
    → CreditStoreData
    → Result PaymentError CreditBalance × CreditStoreData
charge now user_id credits none d = (err (user_not_found user_id), d)
charge now user_id credits (some balance) d =
    let (balance', _) = deduct_from_balance now credits balance in
    (ok balance', record d { balances = Table.put user_id balance' d.balances })

-- The block of `deduct_credits` that holds the write lock.
unfoldable pub spend :
    ℕ
    → String
    → ℕ
    → UsageRecord
    → CreditStoreData
    → Result PaymentError CreditBalance × CreditStoreData
unfolding available_credits charge
spend now user_id credits usage d =
    if ltb (available_credits user_id d) credits
    then (err (insufficient_credits credits (available_credits user_id d)), d)
    else charge now user_id credits (Table.get user_id d.balances)
        (record d { usage_log = d.usage_log ++ usage ∷ [] })

unfoldable pub get_deposits : String → CreditStoreData → List Deposit
get_deposits user_id d = keep_if (λ x. str_eq x.user_id user_id) d.deposits

unfoldable pub get_usage : String → CreditStoreData → List UsageRecord
get_usage user_id d = keep_if (λ x. str_eq x.user_id user_id) d.usage_log

unfoldable pub is_tx_processed : String → CreditStoreData → Bool
is_tx_processed tx_hash d = StringSet.contains tx_hash d.processed_tx_hashes

pub record CreditStoreStats : Type 0 where
  pub total_users : ℕ
  pub total_deposits : ℕ
  pub total_usage_records : ℕ
  pub total_credits_deposited : ℕ
  pub total_credits_consumed : ℕ

-- The `u64` sums wrap in a release build.
unfoldable pub get_stats : CreditStoreData → CreditStoreStats
get_stats d = record {
  total_users = length d.balances;
  total_deposits = length d.deposits;
  total_usage_records = length d.usage_log;
  total_credits_deposited = sum_by (λ x. x.credits_granted) d.deposits % (u64_max + 1);
  total_credits_consumed = sum_by (λ x. x.credits_consumed) d.usage_log % (u64_max + 1);
}
