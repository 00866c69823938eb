-- ===== src/Payments/Sweeper/History.antt =====
-- crates/x402-payments/src/sweeper.rs: what the history of the sweeps keeps.
use signal_bot_tee.Common.{
  append-nil, append_assoc, ℕ, ◌-◌, ◌≤◌, List, [], ◌∷◌, ◌++◌, Bool-cases, inl, inr, ltb, length,
  drop, last_n, last_n-append, length-last_n, ◌≡◌, refl, sym, ap, ◌∙◌, arith,
}
use signal_bot_tee.Payments.Sweeper.{SweepRecord, FundSweeper, keep_history, sweep_once}

last_n-all : (xs : List SweepRecord) → length xs ≤ 100 → xs ≡ last_n 100 xs
last_n-all xs h = let z : length xs - 100 ≡ 0 = omega (arith, h) in ap (λ k. drop k xs) (sym z)

keep_history_lem :
    (records history : List SweepRecord)
    → length history ≤ 100
    → keep_history records history ≡ last_n 100 (history ++ records)
unfolding keep_history
keep_history_lem [] history h = last_n-all history h ∙ ap (last_n 100) (sym (append-nil history))
keep_history_lem (r ∷ rs) history h =
    let all : List SweepRecord = history ++ r ∷ rs in
    elim (Bool-cases (ltb 100 (length all))) [
      | inl more ↦ rw more refl
      | inr fits ↦ rw fits (last_n-all all (ground (arith, fits)))
    ]

-- The records of all cycles of a sweeper, and the sweeper after them: one time stamp for each cycle
unfoldable pub run_cycles :
    {W : Type 0} → List ℕ → FundSweeper W → W → List SweepRecord × FundSweeper W
run_cycles [] s w = ([], s)
run_cycles (now ∷ later) s w =
    let (records, s1, w1) = sweep_once now s w in
    let (rest, s2) = run_cycles later s1 w1 in (records ++ rest, s2)

run_cycles-after :
    {W : Type 0} (times : List ℕ) (s : FundSweeper W) (w : W) (past : List SweepRecord)
    → s.sweep_history ≡ last_n 100 past
    → let (records, s') = run_cycles times s w in s'.sweep_history ≡ last_n 100 (past ++ records)
unfolding run_cycles sweep_once
run_cycles-after [] s w past h = h ∙ ap (last_n 100) (sym (append-nil past))
run_cycles-after (now ∷ later) s w past h =
    let (records, s1, w1) = sweep_once now s w in
    let kept : s1.sweep_history ≡ last_n 100 (past ++ records) =
      keep_history_lem records s.sweep_history (omega (arith, length-last_n 100 past, ap length h))
      ∙ ap (λ ms. last_n 100 (ms ++ records)) h
      ∙ last_n-append 100 past records in
    run_cycles-after later s1 w1 (past ++ records) kept
    ∙ ap (last_n 100) (append_assoc past records (run_cycles later s1 w1).0)

-- After any number of cycles the history of a sweeper that started with an empty one is the last
-- hundred of all the records that the cycles returned, in order.
pub run_cycles-last_n :
    {W : Type 0} (times : List ℕ) (s : FundSweeper W) (w : W)
    → s.sweep_history ≡ []
    → let (records, s') = run_cycles times s w in s'.sweep_history ≡ last_n 100 records
run_cycles-last_n times s w h = run_cycles-after times s w [] h
