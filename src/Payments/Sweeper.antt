-- ===== src/Payments/Sweeper.antt =====
-- crates/x402-payments/src/sweeper.rs: the transfer of deposits to the operator. `now` stamps a record;
-- the state is the history of the sweeps and the nodes of the chains.
pub mod Amounts
pub mod History
use signal_bot_tee.Common.{
  ℕ, ◌-◌, String, Bool, Option, none, some, List, [], ◌∷◌, ◌++◌, ltb, ◌==◌, length, drop, Result,
  ok, err, if◌then◌else◌,
}
use signal_bot_tee.Credits.Types.{Chain, base, near, solana, PaymentError, OperatorAddresses}
use signal_bot_tee.Payments.Facilitator.{Facilitator, TxResult}

pub record SweepConfig : Type 0 where
  pub min_amount_usdc : ℕ
  pub reserve_for_gas : ℕ

pub record SweepRecord : Type 0 where
  pub chain : Chain
  pub from : String
  pub to : String
  pub amount : ℕ
  pub tx_hash : String
  pub success : Bool
  pub timestamp : ℕ

pub record FundSweeper (W : Type 0) : Type 0 where
  pub chains : List (Facilitator W)
  pub operator_addresses : OperatorAddresses
  pub config : SweepConfig
  pub sweep_history : List SweepRecord

unfoldable pub get_operator_address : Chain → OperatorAddresses → Option String
get_operator_address base o = o.base
get_operator_address near o = o.near
get_operator_address solana o = o.solana

abbrev pub Sweep : Type 0 → Type 0
Sweep W = W → Result PaymentError (Option SweepRecord) × W

-- `Ok(Some(record)) => records.push(record)`; what failed is logged and skipped
abbrev pub swept : Result PaymentError (Option SweepRecord) → List SweepRecord
swept (ok (some r)) = r ∷ []
swept (ok none) = []
swept (err e) = []

module _ {W : Type 0} (now : ℕ) where
  abbrev pub record_of : Facilitator W → String → ℕ → TxResult → SweepRecord
  record_of f operator amount tx = record {
    chain = f.chain;
    from = f.deposit_address;
    to = operator;
    amount = amount;
    tx_hash = tx.tx_hash;
    success = tx.success;
    timestamp = now;
  }

  abbrev pub transferred :
      Facilitator W
      → String
      → ℕ
      → Result PaymentError TxResult × W
      → Result PaymentError (Option SweepRecord) × W
  transferred f operator amount (ok tx, w) = (ok (some (record_of f operator amount tx)), w)
  transferred f operator amount (err e, w) = (err e, w)

  -- From the balance on: the threshold, the reserve, and the transfer
  unfoldable pub sweep_balance :
      SweepConfig
      → Facilitator W
      → String
      → Result PaymentError ℕ × W
      → Result PaymentError (Option SweepRecord) × W
  sweep_balance c f operator (err e, w) = (err e, w)
  sweep_balance c f operator (ok balance, w) =
      let amount = balance - c.reserve_for_gas in
      if ltb balance c.min_amount_usdc
      then (ok none, w)
      else if amount == 0
      then (ok none, w)
      else transferred f operator amount (f.transfer_to operator amount w)

  abbrev pub sweep_to : SweepConfig → Facilitator W → Option String → Sweep W
  unfolding sweep_balance
  sweep_to c f none w = (ok none, w)
  sweep_to c f (some operator) w = sweep_balance c f operator (f.get_deposit_wallet_balance w)

  unfoldable pub sweep_chain : OperatorAddresses → SweepConfig → Facilitator W → Sweep W
  unfolding sweep_to
  sweep_chain operators c f w = sweep_to c f (get_operator_address f.chain operators) w

  unfoldable pub sweep_all :
      OperatorAddresses → SweepConfig → List (Facilitator W) → W → List SweepRecord × W
  unfolding sweep_chain
  sweep_all operators c [] w = ([], w)
  sweep_all operators c (f ∷ fs) w =
      let (r, w1) = sweep_chain operators c f w in
      let (rs, w2) = sweep_all operators c fs w1 in (swept r ++ rs, w2)

-- The history keeps its last hundred records.
unfoldable pub keep_history : List SweepRecord → List SweepRecord → List SweepRecord
keep_history [] history = history
keep_history (r ∷ rs) history =
    let all = history ++ (r ∷ rs) in
    let n = length all in if ltb 100 n then drop (n - 100) all else all

unfoldable pub sweep_once :
    {W : Type 0} → ℕ → FundSweeper W → W → List SweepRecord × FundSweeper W × W
unfolding sweep_all keep_history
sweep_once now s w =
    let (records, w') = sweep_all now s.operator_addresses s.config s.chains w in
    (records, record s { sweep_history = keep_history records s.sweep_history }, w')
