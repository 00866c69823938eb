-- ===== src/Credits/Store/Data/Preserve.antt =====
-- `grant` and `spend` keep the books of the credit store consistent.
use signal_bot_tee.Common.{
  ℕ, ◌+◌, ◌≤◌, String, ◌≡◌, refl, sym, ◌∙◌, false, Option, none, some, List, [], ◌∷◌, ◌++◌, ltb,
  arith, any, any-append, str_eq, eq_iff, if◌then◌else◌, Bool-cases, Option-cases, inl, inr,
  unwrap_or,
}
use mathlib.Core.Path.{subst}
use native.Mathlib.Nat.{add-zero}
use signal_bot_tee.Common.Table
use signal_bot_tee.Common.StringSet
use signal_bot_tee.Credits.Types.{
  CreditBalance, Deposit, UsageRecord, new_balance, add_to_balance, deduct_from_balance,
}
use signal_bot_tee.Credits.Store.Data.{
  CreditStoreData, grant, spend, get_deposits, get_usage, available_credits,
}
use signal_bot_tee.Credits.Store.Data.Invariant.{
  granted, spent, IsBalanced, has_tx, HasDistinctTx, IsConsistent, IsUsageOf, sum_by-keep_if_snoc,
  add-IsBalanced-some, add-IsBalanced-none,
}

HasDistinctTx-snoc :
    (xs : List Deposit) (x : Deposit)
    → HasDistinctTx xs
    → any (λ y. str_eq y.tx_hash x.tx_hash) xs ≡ false
    → HasDistinctTx (xs ++ x ∷ [])
HasDistinctTx-snoc [] x h n = (refl, tt)
HasDistinctTx-snoc (y ∷ xs) x h n = ground (
  arith,
  HasDistinctTx-snoc xs x h.1,
  any-append (λ z. str_eq z.tx_hash y.tx_hash) xs (x ∷ []),
  eq_iff y.tx_hash x.tx_hash,
  eq_iff x.tx_hash y.tx_hash,
)

-- The row that `entry(user).or_insert_with(new)` and `add_credits` leave.
abbrev row_after : ℕ → Deposit → CreditStoreData → CreditBalance
row_after now x d =
    add_to_balance now x.credits_granted
      (unwrap_or (Table.get x.user_id d.balances) (new_balance now x.user_id))

abbrev after_grant : ℕ → Deposit → CreditStoreData → CreditStoreData
after_grant now x d = record d {
  processed_tx_hashes = StringSet.insert x.tx_hash d.processed_tx_hashes;
  deposits = d.deposits ++ x ∷ [];
  balances = Table.put x.user_id (row_after now x d) d.balances;
}

row_after-IsBalanced :
    (now amount : ℕ) (user : String) (o : Option CreditBalance) (i t : ℕ)
    → IsBalanced o i t
    → IsBalanced
        (some (add_to_balance now amount (unwrap_or o (new_balance now user))))
        (i + amount)
        t
row_after-IsBalanced now amount user none i t h = add-IsBalanced-none now amount user i t h
row_after-IsBalanced now amount user (some b) i t h = add-IsBalanced-some now amount user b i t h

granted-grant :
    (now : ℕ) (x : Deposit) (d : CreditStoreData) (u : String)
    → granted u (after_grant now x d)
      ≡ granted u d + (if str_eq x.user_id u then x.credits_granted else 0)
unfolding granted get_deposits
granted-grant now x d u =
    sum_by-keep_if_snoc (λ y. y.credits_granted) (λ y. str_eq y.user_id u) d.deposits x

grant-IsBalanced :
    (now : ℕ) (x : Deposit) (d : CreditStoreData) (u : String)
    → IsConsistent d
    → IsBalanced
        (Table.get u (after_grant now x d).balances)
        (granted u (after_grant now x d))
        (spent u (after_grant now x d))
unfolding spent get_usage
grant-IsBalanced now x d u h =
    rw (Table.get-put x.user_id u (row_after now x d) d.balances, granted-grant now x d u)
      (elim (Bool-cases (str_eq x.user_id u)) [
        | inl same ↦ rw same (
            row_after-IsBalanced now x.credits_granted x.user_id (Table.get x.user_id d.balances)
              (granted u d) (spent u d)
              (subst (λ v. IsBalanced (Table.get v d.balances) (granted u d) (spent u d))
                (sym ((eq_iff x.user_id u).0 same)) (h.balanced u)))
        | inr other ↦ rw (other, add-zero) (h.balanced u)
      ])

grant-recorded :
    (now : ℕ) (x : Deposit) (d : CreditStoreData) (t : String)
    → IsConsistent d
    → StringSet.contains t (after_grant now x d).processed_tx_hashes
      ≡ has_tx t (after_grant now x d)
grant-recorded now x d t h = ground (
  arith,
  StringSet.contains-insert x.tx_hash t d.processed_tx_hashes,
  any-append (λ y. str_eq y.tx_hash t) d.deposits (x ∷ []),
  h.recorded t,
)

grant-distinct :
    (now : ℕ) (x : Deposit) (d : CreditStoreData)
    → IsConsistent d
    → StringSet.contains x.tx_hash d.processed_tx_hashes ≡ false
    → HasDistinctTx (d.deposits ++ x ∷ [])
grant-distinct now x d h new =
    HasDistinctTx-snoc d.deposits x h.distinct (sym (h.recorded x.tx_hash) ∙ new)

-- A grant, refused or not, keeps the books consistent.
pub grant-IsConsistent :
    (now : ℕ) (x : Deposit) (d : CreditStoreData) → IsConsistent d → IsConsistent (grant now x d).1
unfolding grant
grant-IsConsistent now x d h =
    elim (Bool-cases (StringSet.contains x.tx_hash d.processed_tx_hashes)) [
      | inl old ↦ rw old h
      | inr new ↦ rw new (record {
        balanced = λ u. grant-IsBalanced now x d u h;
        recorded = λ t. grant-recorded now x d t h;
        distinct = grant-distinct now x d h new;
      })
    ]

deduct-IsBalanced :
    (now credits : ℕ) (b : CreditBalance) (i o : ℕ)
    → credits ≤ b.credits_remaining
    → IsBalanced (some b) i o
    → IsBalanced (some (deduct_from_balance now credits b).0) i (o + credits)
unfolding deduct_from_balance
deduct-IsBalanced now credits b i o fits h = ground (arith, h.exact)

abbrev after_spend :
    ℕ → String → ℕ → UsageRecord → CreditBalance → CreditStoreData → CreditStoreData
after_spend now user credits usage b d = record d {
  usage_log = d.usage_log ++ usage ∷ [];
  balances = Table.put user (deduct_from_balance now credits b).0 d.balances;
}

spent-spend :
    (usage : UsageRecord) (d : CreditStoreData) (u : String)
    → spent u (record d { usage_log = d.usage_log ++ usage ∷ [] })
      ≡ spent u d + (if str_eq usage.user_id u then usage.credits_consumed else 0)
unfolding spent get_usage
spent-spend usage d u =
    sum_by-keep_if_snoc (λ y. y.credits_consumed) (λ y. str_eq y.user_id u) d.usage_log usage

-- The row of each user after the usage was pushed and `user` charged.
spend-IsBalanced :
    (now : ℕ) (user : String) (credits : ℕ) (usage : UsageRecord) (b : CreditBalance)
    (d : CreditStoreData) (u : String)
    → IsConsistent d
    → IsUsageOf user credits usage
    → Table.get user d.balances ≡ some b
    → credits ≤ b.credits_remaining
    → IsBalanced
        (Table.get u (after_spend now user credits usage b d).balances)
        (granted u d)
        (spent u (record d { usage_log = d.usage_log ++ usage ∷ [] }))
spend-IsBalanced now user credits usage b d u h of row fits =
    rw
      (
        Table.get-put user u (deduct_from_balance now credits b).0 d.balances,
        spent-spend usage d u,
        of.of_user,
        of.of_credits,
      )
      (elim (Bool-cases (str_eq user u)) [
        | inl same ↦ rw same (
            deduct-IsBalanced now credits b (granted u d) (spent u d) fits (
              subst (λ o. IsBalanced o (granted u d) (spent u d)) row
                (subst (λ v. IsBalanced (Table.get v d.balances) (granted u d) (spent u d))
                  (sym ((eq_iff user u).0 same)) (h.balanced u))))
        | inr other ↦ rw (other, add-zero) (h.balanced u)
      ])

-- Where no row is charged, the pushed usage is of zero credits.
push-IsBalanced :
    (user : String) (usage : UsageRecord) (d : CreditStoreData) (u : String)
    → IsConsistent d
    → IsUsageOf user 0 usage
    → IsBalanced
        (Table.get u d.balances)
        (granted u d)
        (spent u (record d { usage_log = d.usage_log ++ usage ∷ [] }))
push-IsBalanced user usage d u h of =
    rw (spent-spend usage d u, of.of_credits)
      (elim (Bool-cases (str_eq usage.user_id u)) [
        | inl same ↦ rw (same, add-zero) (h.balanced u)
        | inr other ↦ rw (other, add-zero) (h.balanced u)
      ])

pub available_credits-none :
    (user : String) (d : CreditStoreData)
    → Table.get user d.balances ≡ none
    → available_credits user d ≡ 0
unfolding available_credits
available_credits-none user d e = rw (e, available_credits)

pub available_credits-some :
    (user : String) (d : CreditStoreData) {b : CreditBalance}
    → Table.get user d.balances ≡ some b
    → available_credits user d ≡ b.credits_remaining
unfolding available_credits
available_credits-some user d e = rw (e, available_credits)

-- A charge, refused or not, keeps the books consistent, if the usage record is of its user and
-- its credits.
pub spend-IsConsistent :
    (now : ℕ) (user : String) (credits : ℕ) (usage : UsageRecord) (d : CreditStoreData)
    → IsConsistent d
    → IsUsageOf user credits usage
    → IsConsistent (spend now user credits usage d).1
unfolding spend granted get_deposits spent get_usage
spend-IsConsistent now user credits usage d h of = elim (Option-cases (Table.get user d.balances)) [
  | inl unknown ↦ elim (Bool-cases (ltb 0 credits)) [
    | inl short ↦ rw (available_credits-none user d unknown, short) h
    | inr zero_credits ↦
        rw (available_credits-none user d unknown, zero_credits, unknown)
          (record {
            balanced = λ u.
                push-IsBalanced user usage d u h
                  (record { of_user = of.of_user; of_credits = of.of_credits ∙ ground arith });
            recorded = h.recorded;
            distinct = h.distinct;
          })
  ]
  | inr (b, row) ↦ elim (Bool-cases (ltb b.credits_remaining credits)) [
    | inl short ↦ rw (available_credits-some user d row, short) h
    | inr fits ↦
        rw (available_credits-some user d row, fits, row)
          (record {
            balanced = λ u. spend-IsBalanced now user credits usage b d u h of row (ground arith);
            recorded = h.recorded;
            distinct = h.distinct;
          })
  ]
]
