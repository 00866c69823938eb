-- ===== src/Tests/Credits.antt =====
-- Two deposits and two charges on a credit store, in the amounts of the repository's tests.
use signal_bot_tee.Common.StringSet
use signal_bot_tee.Common.{
  String, ◌≡◌, refl, ◌≢◌, ◌+◌, ◌≤◌, some, [], ◌∷◌, ◌++◌, arith, ok, err, u64_max,
}
use signal_bot_tee.Common.Table
use signal_bot_tee.Credits.Types.{
  Chain, CreditBalance, Deposit, UsageRecord, confirmed, duplicate_transaction, add_to_balance,
  new_balance, deduct_from_balance,
}
use signal_bot_tee.Credits.Pricing.{TokenUsage, default_pricing, calculate_credits, cost_of}
use signal_bot_tee.Credits.Pricing.Laws.{IsPriceable}
use signal_bot_tee.Credits.Store.Data.{CreditStoreData, empty_data, grant, spend, available_credits}
use signal_bot_tee.Credits.Store.Data.Invariant.{
  granted, spent, remaining_of, IsConsistent, IsUsageOf,
}
use signal_bot_tee.Credits.Store.Data.Outcomes.{grant_once, spend_covered}
use signal_bot_tee.Credits.Store.Data.Trace.{Reach, here, next, granting, spending, books_balance}

abbrev pub alice : String
alice = "+14155551234"

abbrev pub deposit_a : Deposit
deposit_a = record {
  id = "d1";
  user_id = alice;
  chain = Chain.base;
  tx_hash = "0xabc";
  amount_usdc = 1000000;
  credits_granted = 1000000;
  status = confirmed;
  created_at = 5;
  confirmed_at = some 5;
}

abbrev deposit_b : Deposit
deposit_b = record deposit_a { user_id = "+19999999999"; chain = Chain.near }

abbrev usage_a : UsageRecord
usage_a = record {
  user_id = alice;
  conversation_id = alice;
  prompt_tokens = 1000;
  completion_tokens = 500;
  total_tokens = 1500;
  credits_consumed = 250;
  timestamp = 7;
}

usage_a-of : IsUsageOf alice 250 usage_a
usage_a-of = record { of_user = refl; of_credits = refl }

abbrev pub funded : CreditStoreData
funded = (grant 5 deposit_a empty_data).1

abbrev charged : CreditStoreData
charged = (spend 7 alice 250 usage_a funded).1

funded_row : Table.get alice funded.balances ≡ some (add_to_balance 5 1000000 (new_balance 5 alice))
unfolding grant Table.get StringSet.contains Table.put
funded_row = refl

charged_remaining : available_credits alice charged ≡ 999750
unfolding available_credits spend grant add_to_balance new_balance deduct_from_balance Table.get
    StringSet.contains Table.put
charged_remaining = refl

duplicate_refused : (grant 6 deposit_b funded).0 ≡ err (duplicate_transaction "0xabc")
unfolding grant StringSet.contains StringSet.insert
duplicate_refused = refl

price_of_message :
    calculate_credits (record { prompt_tokens = 1000; completion_tokens = 500 }) default_pricing
    ≡ 250
unfolding calculate_credits cost_of
price_of_message = refl

reached : Reach empty_data charged
reached = next (next here (granting 5 deposit_a)) (spending 7 alice 250 usage_a usage_a-of)

books_balance_example :
    (remaining_of (Table.get alice charged.balances) + spent alice charged ≤ granted alice charged)
    × (granted alice charged ≤ u64_max
        → remaining_of (Table.get alice charged.balances) + spent alice charged
          ≡ granted alice charged)
    × IsConsistent charged
books_balance_example = books_balance alice reached

grant_once_example :
    grant 6 deposit_b (grant 5 deposit_a empty_data).1
    ≡ (err (duplicate_transaction "0xabc"), (grant 5 deposit_a empty_data).1)
grant_once_example = grant_once 5 6 deposit_a deposit_b empty_data refl

abbrev funded_balance : CreditBalance
funded_balance = add_to_balance 5 1000000 (new_balance 5 alice)

enough : 250 ≤ funded_balance.credits_remaining
unfolding add_to_balance new_balance
enough = omega arith

spend_covered_example :
    let (r, d') = spend 7 alice 250 usage_a funded in
    (b' : CreditBalance) × (r ≡ ok b')
    × (b'.credits_remaining + 250 ≡ funded_balance.credits_remaining)
    × (Table.get alice d'.balances ≡ some b')
    × ((v : String) → alice ≢ v → Table.get v d'.balances ≡ Table.get v funded.balances)
    × (d'.usage_log ≡ funded.usage_log ++ usage_a ∷ [])
    × (d'.deposits ≡ funded.deposits)
spend_covered_example = spend_covered 7 250 alice usage_a funded funded_balance funded_row enough

abbrev message : TokenUsage
message = record { prompt_tokens = 1000; completion_tokens = 500 }

message-IsPriceable : IsPriceable message default_pricing
message-IsPriceable = omega arith
