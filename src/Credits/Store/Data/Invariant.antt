-- ===== src/Credits/Store/Data/Invariant.antt =====
-- The books of the credit store agree with its deposit history and its usage log.
use signal_bot_tee.Common.{
  ℕ, ◌+◌, ◌≤◌, String, ◌≡◌, refl, Bool, false, Option, none, some, List, [], ◌∷◌, ◌++◌, min,
  u64_max, arith, sum_by, sum_by-append, keep_if, keep_if-append, any, str_eq, if◌then◌else◌,
}
use signal_bot_tee.Common.Table
use signal_bot_tee.Common.StringSet
use signal_bot_tee.Credits.Types.{CreditBalance, Deposit, UsageRecord, new_balance, add_to_balance}
use signal_bot_tee.Credits.Store.Data.{CreditStoreData, empty_data, get_deposits, get_usage}

-- All that was ever granted to a user, and all that a user ever spent, in unbounded arithmetic.
unfoldable pub granted : String → CreditStoreData → ℕ
granted u d = sum_by (λ x. x.credits_granted) (get_deposits u d)

unfoldable pub spent : String → CreditStoreData → ℕ
spent u d = sum_by (λ x. x.credits_consumed) (get_usage u d)

abbrev pub deposited_of : Option CreditBalance → ℕ
deposited_of none = 0
deposited_of (some b) = b.total_deposited

abbrev pub consumed_of : Option CreditBalance → ℕ
consumed_of none = 0
consumed_of (some b) = b.total_consumed

abbrev pub remaining_of : Option CreditBalance → ℕ
remaining_of none = 0
remaining_of (some b) = b.credits_remaining

-- A row of the table against the user's history: its totals are the history's, capped at the
-- largest `u64`, and what remains and what was spent was granted, exactly so below the cap.
pub record IsBalanced (row : Option CreditBalance) (in_total out_total : ℕ) : Type 0 where
  pub deposited : deposited_of row ≡ min in_total u64_max
  pub consumed : consumed_of row ≡ min out_total u64_max
  pub solvent : remaining_of row + out_total ≤ in_total
  pub exact : in_total ≤ u64_max → remaining_of row + out_total ≡ in_total

abbrev pub has_tx : String → CreditStoreData → Bool
has_tx t d = any (λ x. str_eq x.tx_hash t) d.deposits

abbrev pub HasDistinctTx : List Deposit → Type 0
HasDistinctTx [] = Unit
HasDistinctTx (x ∷ xs) = (any (λ y. str_eq y.tx_hash x.tx_hash) xs ≡ false) × HasDistinctTx xs

pub record IsConsistent (d : CreditStoreData) : Type 0 where
  pub balanced : (u : String) → IsBalanced (Table.get u d.balances) (granted u d) (spent u d)
  pub recorded : (t : String) → StringSet.contains t d.processed_tx_hashes ≡ has_tx t d
  pub distinct : HasDistinctTx d.deposits

-- A usage record that charges the user who is charged, and the credits that are charged.
pub record IsUsageOf (u : String) (credits : ℕ) (usage : UsageRecord) : Type 0 where
  pub of_user : usage.user_id ≡ u
  pub of_credits : usage.credits_consumed ≡ credits

pub IsConsistent-empty : IsConsistent empty_data
unfolding granted spent get_deposits get_usage Table.get StringSet.contains
IsConsistent-empty = record { balanced = λ u. omega arith; recorded = λ t. refl; distinct = tt }

pub sum_by-keep_if_snoc {ℓ} :
    {A : Type ℓ} (f : A → ℕ) (p : A → Bool) (xs : List A) (x : A)
    → sum_by f (keep_if p (xs ++ x ∷ [])) ≡ sum_by f (keep_if p xs) + (if p x then f x else 0)
sum_by-keep_if_snoc f p xs x =
    rw (keep_if-append p xs (x ∷ []), sum_by-append f (keep_if p xs) (keep_if p (x ∷ [])))
      (ground arith)

module _ (now amount : ℕ) (user : String) where
  pub add-IsBalanced-some :
      (b : CreditBalance) (i o : ℕ)
      → IsBalanced (some b) i o
      → IsBalanced (some (add_to_balance now amount b)) (i + amount) o
  unfolding add_to_balance
  add-IsBalanced-some b i o h = omega (arith, h.exact)

  pub add-IsBalanced-none :
      (i o : ℕ)
      → IsBalanced none i o
      → IsBalanced (some (add_to_balance now amount (new_balance now user))) (i + amount) o
  unfolding add_to_balance new_balance
  add-IsBalanced-none i o h = omega (arith, h.exact)
