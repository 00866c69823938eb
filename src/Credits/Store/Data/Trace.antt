-- ===== src/Credits/Store/Data/Trace.antt =====
-- Every store that grants and charges lead to from the empty one.
use signal_bot_tee.Common.{ℕ, ◌+◌, ◌≤◌, String, ◌≡◌, u64_max}
use signal_bot_tee.Common.Table
use signal_bot_tee.Credits.Types.{Deposit, UsageRecord}
use signal_bot_tee.Credits.Store.Data.{CreditStoreData, empty_data, grant, spend}
use signal_bot_tee.Credits.Store.Data.Invariant.{
  granted, spent, remaining_of, IsConsistent, IsConsistent-empty, IsUsageOf,
}
use signal_bot_tee.Credits.Store.Data.Preserve.{grant-IsConsistent, spend-IsConsistent}

-- One locked block, whatever it answers. The bot charges what it logs, to whom it logs it.
pub data Step (d : CreditStoreData) : CreditStoreData → Type 0 where
  granting : (now : ℕ) (x : Deposit) → Step d (grant now x d).1
  spending :
      (now : ℕ) (user : String) (credits : ℕ) (usage : UsageRecord)
      → IsUsageOf user credits usage
      → Step d (spend now user credits usage d).1

pub data Reach (d : CreditStoreData) : CreditStoreData → Type 0 where
  here : Reach d d
  next : {e f : CreditStoreData} → Reach d e → Step e f → Reach d f

Step-IsConsistent : {d e : CreditStoreData} → Step d e → IsConsistent d → IsConsistent e
Step-IsConsistent {d} (granting now x) h = grant-IsConsistent now x d h
Step-IsConsistent {d} (spending now user credits usage of) h =
    spend-IsConsistent now user credits usage d h of

Reach-IsConsistent : {d e : CreditStoreData} → Reach d e → IsConsistent d → IsConsistent e
Reach-IsConsistent here h = h
Reach-IsConsistent (next r s) h = Step-IsConsistent s (Reach-IsConsistent r h)

-- Whatever was granted and charged, in any order and with any refusals: no user has spent more
-- than was deposited for that user; the balance that remains is what was granted less what was
-- spent, as long as all that was granted fits a `u64`; and no transaction was granted twice.
pub books_balance :
    {d : CreditStoreData} (u : String)
    → Reach empty_data d
    → (remaining_of (Table.get u d.balances) + spent u d ≤ granted u d)
      × (granted u d ≤ u64_max → remaining_of (Table.get u d.balances) + spent u d ≡ granted u d)
      × IsConsistent d
books_balance u r =
    let h = Reach-IsConsistent r IsConsistent-empty in
    ((h.balanced u).solvent, (h.balanced u).exact, h)
