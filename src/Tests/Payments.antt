-- ===== src/Tests/Payments.antt =====
-- A node that knows one payment, and a wallet of twenty dollars that is swept.
use signal_bot_tee.Common.Table
use signal_bot_tee.Common.StringSet
use signal_bot_tee.Common.{
  ◌≡◌, refl, sym, true, false, none, some, [], ◌∷◌, ok, err, str_eq, if◌then◌else◌, Result,
}
use signal_bot_tee.Credits.Types.{
  add_to_balance, new_balance, PaymentError, tx_not_found, base, confirmed,
}
use signal_bot_tee.Credits.Pricing.{default_pricing}
use signal_bot_tee.Credits.Store.Data.{grant, is_tx_processed}
use signal_bot_tee.Credits.Store.Persist.{add_credits, persist, derive_key, write_sealed}
use signal_bot_tee.Payments.Facilitator.{PaymentPayload, PaymentVerification, Facilitator, of_chain}
use signal_bot_tee.Payments.Deposits.{
  AppState, DepositRequest, DepositResponse, duplicate_tx, chain_disabled, chain_enabled,
  payload_of, confirmed_deposit, process_deposit, verify_on_chain, credit,
}
use signal_bot_tee.Payments.Deposits.Outcomes.{Answers, after_deposits, deposit_once}
use signal_bot_tee.Payments.Sweeper.{FundSweeper, SweepRecord}
use signal_bot_tee.Tests.Credits.{alice}
use signal_bot_tee.Tests.Persistence.{Disk, small_platform, store}

abbrev paid : PaymentVerification
paid = record {
  tx_hash = "0xfeed";
  amount_usdc = 2500000;
  from = some "0xpayer";
  to = "0xwallet";
  confirmations = 3;
  is_verified = true;
}

abbrev looked_up : PaymentPayload → Disk → Result PaymentError PaymentVerification × Disk
looked_up payload w =
    (if str_eq payload.tx_hash "0xfeed" then ok paid else err (tx_not_found payload.tx_hash), w)

abbrev pub node : Facilitator Disk
node = record {
  chain = base;
  deposit_address = "0xwallet";
  verify_payment = looked_up;
  get_deposit_wallet_balance = λ w. (ok 20000000, w);
  transfer_to =
      λ to amount w. (ok (record { tx_hash = "0x1"; block_number = none; success = true }), w);
}

abbrev pub api : AppState Disk
api = record {
  configs = record {
    on_base =
        some (record { enabled = true; token_contract = "0xusdc"; operator_address = some "0xop" });
    on_near = none;
    on_solana = none;
  };
  pricing = default_pricing;
  facilitators = record { on_base = some node; on_near = none; on_solana = none };
}

abbrev pub asked : DepositRequest
asked = record { chain = base; tx_hash = "0xfeed"; user_id = alice; amount = 2500000 }

abbrev asked_by_bob : DepositRequest
asked_by_bob = record asked { user_id = "bob" }

asked-fresh : is_tx_processed asked.tx_hash store.store_data ≡ false
unfolding is_tx_processed StringSet.contains grant StringSet.insert
asked-fresh = refl

asked-enabled : chain_enabled small_platform api base ≡ true
unfolding chain_enabled
asked-enabled = refl

asked-answered : Answers small_platform api "d9" 5 asked store (ok paid) store.world
unfolding payload_of
asked-answered = (node, refl, refl)

node_blind :
    (f : Facilitator Disk) (w : Disk)
    → of_chain base api.facilitators ≡ some f
    → f.verify_payment (payload_of small_platform api asked_by_bob) w
      ≡ f.verify_payment (payload_of small_platform api asked) w
unfolding payload_of
node_blind f w h = let same : node ≡ f = cc in rw (sym same) refl

abbrev answered : DepositResponse
answered = record {
  deposit_id = "d9";
  credits_granted = 2500000;
  new_balance = 3500000;
  tx_hash = "0xfeed";
  status = confirmed;
}

deposit_answered : (process_deposit small_platform api "d9" 5 asked store).0 ≡ ok answered
unfolding process_deposit chain_enabled is_tx_processed StringSet.contains grant StringSet.insert
    verify_on_chain payload_of credit add_credits confirmed_deposit persist derive_key write_sealed
    add_to_balance new_balance Table.get Table.put
deposit_answered = refl

deposit_once_example :
    let t =
      after_deposits small_platform api
        (("d8", (5, asked_by_bob)) ∷ [])
        (process_deposit small_platform api "d9" 5 asked store).1 in
    process_deposit small_platform api "d10" 6 asked_by_bob t
    ≡ (err (if chain_enabled small_platform api base then duplicate_tx else chain_disabled), t)
deposit_once_example =
    deposit_once small_platform api "d9" "d10" 5 6 asked asked_by_bob
      (("d8", (5, asked_by_bob)) ∷ []) store answered deposit_answered refl

abbrev sweeper : FundSweeper Disk
sweeper = record {
  chains = node ∷ [];
  operator_addresses = record { base = some "0xop"; near = none; solana = none };
  config = record { min_amount_usdc = 10000000; reserve_for_gas = 10000 };
  sweep_history = [];
}

abbrev first_sweep : SweepRecord
first_sweep = record {
  chain = base;
  from = "0xwallet";
  to = "0xop";
  amount = 19990000;
  tx_hash = "0x1";
  success = true;
  timestamp = 4;
}
