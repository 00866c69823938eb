-- ===== src/Credits/Store/Data/Outcomes.antt =====
-- What `grant` and `spend` answer, and what they change, on every branch.
use signal_bot_tee.Common.{
  ℕ, ◌+◌, ◌≤◌, ◌<◌, String, ◌≡◌, refl, ◌≢◌, ◌∙◌, true, false, none, some, [], ◌∷◌, ◌++◌, ltb, arith,
  eq_iff, eq_refl, ok, err, Bool-cases, inl, inr,
}
use signal_bot_tee.Common.Table
use signal_bot_tee.Common.StringSet
use signal_bot_tee.Credits.Types.{
  CreditBalance, Deposit, UsageRecord, insufficient_credits, user_not_found, duplicate_transaction,
  deduct_from_balance,
}
use signal_bot_tee.Credits.Store.Data.{
  CreditStoreData, grant, spend, available_credits, is_tx_processed,
}
use signal_bot_tee.Credits.Store.Data.Preserve.{available_credits-none, available_credits-some}

module _ (now : ℕ) (x : Deposit) (d : CreditStoreData) where
  -- A transaction that was seen before is refused, and nothing changes.
  pub grant_duplicate :
      is_tx_processed x.tx_hash d ≡ true
      → grant now x d ≡ (err (duplicate_transaction x.tx_hash), d)
  unfolding grant is_tx_processed
  grant_duplicate h = rw h

  pub grant_processed : is_tx_processed x.tx_hash (grant now x d).1 ≡ true
  unfolding grant is_tx_processed
  grant_processed = elim (Bool-cases (StringSet.contains x.tx_hash d.processed_tx_hashes)) [
    | inl old ↦ rw old old
    | inr new ↦ rw (new, StringSet.contains-insert, eq_refl)
  ]

-- No grant forgets a hash.
pub grant_keeps_processed :
    (now : ℕ) (x : Deposit) (hash : String) (d : CreditStoreData)
    → is_tx_processed hash d ≡ true
    → is_tx_processed hash (grant now x d).1 ≡ true
unfolding grant is_tx_processed
grant_keeps_processed now x hash d old =
    elim (Bool-cases (StringSet.contains x.tx_hash d.processed_tx_hashes)) [
      | inl seen ↦ rw seen old
      | inr new ↦ rw (new, StringSet.contains-insert) (ground (arith, old))
    ]

-- Whatever a first grant answered, a second one of the same transaction hash is refused, for
-- every user, chain and amount, and grants nothing.
pub grant_once :
    (now later : ℕ) (x y : Deposit) (d : CreditStoreData)
    → y.tx_hash ≡ x.tx_hash
    → let d' = (grant now x d).1 in grant later y d' ≡ (err (duplicate_transaction x.tx_hash), d')
grant_once now later x y d e =
    grant_duplicate later y (grant now x d).1 (rw e (grant_processed now x d)) ∙ rw e

module _ (now credits : ℕ) (user : String) (usage : UsageRecord) (d : CreditStoreData) where
  -- Too few credits: the answer names both amounts, and nothing is logged or charged.
  pub spend_insufficient :
      available_credits user d < credits
      → spend now user credits usage d
        ≡ (err (insufficient_credits credits (available_credits user d)), d)
  unfolding spend
  spend_insufficient h = ground arith

  spend_eq :
      {b : CreditBalance}
      → Table.get user d.balances ≡ some b
      → credits ≤ b.credits_remaining
      → spend now user credits usage d ≡ (
        ok (deduct_from_balance now credits b).0,
        record d {
          usage_log = d.usage_log ++ usage ∷ [];
          balances = Table.put user (deduct_from_balance now credits b).0 d.balances;
        },
      )
  unfolding spend
  spend_eq {b} row fits =
      let long : ltb b.credits_remaining credits ≡ false = ground arith in
      rw (available_credits-some user d row, long, row) refl

  -- A charge that its user's row covers takes exactly its credits from that row, logs the usage, and
  -- touches no other row and no deposit.
  pub spend_covered :
      (b : CreditBalance)
      → Table.get user d.balances ≡ some b
      → credits ≤ b.credits_remaining
      → let (r, d') = spend now user credits usage d in
        (b' : CreditBalance) × (r ≡ ok b')
        × (b'.credits_remaining + credits ≡ b.credits_remaining)
        × (Table.get user d'.balances ≡ some b')
        × ((v : String) → user ≢ v → Table.get v d'.balances ≡ Table.get v d.balances)
        × (d'.usage_log ≡ d.usage_log ++ usage ∷ [])
        × (d'.deposits ≡ d.deposits)
  unfolding deduct_from_balance
  spend_covered b row fits = rw (spend_eq row fits) (
    (deduct_from_balance now credits b).0,
    refl,
    ground arith,
    rw (Table.get-put, eq_refl),
    λ v other. ground (
      arith,
      eq_iff user v,
      Table.get-put user v (deduct_from_balance now credits b).0 d.balances,
    ),
    refl,
    refl,
  )

  -- A charge of zero credits to a user without a row answers with an error, and has logged the
  -- usage all the same.
  pub spend_unknown :
      Table.get user d.balances ≡ none
      → credits ≡ 0
      → spend now user credits usage d
        ≡ (err (user_not_found user), record d { usage_log = d.usage_log ++ usage ∷ [] })
  unfolding spend
  spend_unknown unknown zero_credits =
      rw (available_credits-none user d unknown, zero_credits, unknown) refl
