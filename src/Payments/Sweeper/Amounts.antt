-- ===== src/Payments/Sweeper/Amounts.antt =====
-- crates/x402-payments/src/sweeper.rs: what a sweep takes from a deposit wallet.
use signal_bot_tee.Common.{ℕ, ◌+◌, ◌≤◌, ◌<◌, some, ok, ◌≡◌}
use signal_bot_tee.Credits.Types.{OperatorAddresses}
use signal_bot_tee.Payments.Facilitator.{Facilitator, TxResult}
use signal_bot_tee.Payments.Sweeper.{SweepConfig, SweepRecord, get_operator_address}

module _ {W : Type 0} (now : ℕ) (operators : OperatorAddresses) (c : SweepConfig)
    (f : Facilitator W) where
  -- The sweep that a record stands for, from the world `w` to the world `end`: who got it, what of
  -- which balance, and that the facilitator was asked for just this transfer.
  pub record IsSweep (w : W) (r : SweepRecord) (end : W) : Type 0 where
    pub operator_named : get_operator_address f.chain operators ≡ some r.to
    pub source_named : (r.chain ≡ f.chain) × (r.from ≡ f.deposit_address)
    pub balance : ℕ
    pub balance_read : (f.get_deposit_wallet_balance w).0 ≡ ok balance
    pub above_threshold : c.min_amount_usdc ≤ balance
    pub positive : 0 < r.amount
    pub reserve_kept : r.amount + c.reserve_for_gas ≡ balance
    pub tx : TxResult
    pub sent : (f.transfer_to r.to r.amount (f.get_deposit_wallet_balance w).1).0 ≡ ok tx
    pub ended : end ≡ (f.transfer_to r.to r.amount (f.get_deposit_wallet_balance w).1).1
    pub reported : (r.tx_hash ≡ tx.tx_hash) × (r.success ≡ tx.success)
