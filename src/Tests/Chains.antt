-- ===== src/Tests/Chains.antt =====
-- The facilitators of the three chains at concrete answers of a node. Every text is in lower case.
use signal_bot_tee.Common.{String, ◌≡◌, ◌⊎◌, refl, true, false, some, none, [], ◌∷◌, ok, err}
use signal_bot_tee.Credits.Types.{base, near, solana, invalid_payload}
use signal_bot_tee.Credits.Pricing.{default_pricing}
use signal_bot_tee.Credits.Store.Data.{grant, is_tx_processed}
use signal_bot_tee.Payments.Facilitator.{PaymentPayload, PaymentVerification}
use signal_bot_tee.Payments.Deposits.{AppState, DepositRequest, confirmed_deposit, process_deposit}
use signal_bot_tee.Payments.Chains.Base.{
  BaseFacilitator, TxLog, TxReceipt, verify_payment, transfer_event_signature,
}
use signal_bot_tee.Payments.Chains.Base.Soundness.{IsBacked, verify_payment-IsBacked}
use signal_bot_tee.Payments.Chains.Near.{NearFacilitator, near_facilitator}
use signal_bot_tee.Payments.Chains.Solana.{SolanaFacilitator, TokenBalance, solana_facilitator}
use signal_bot_tee.Payments.Chains.Solana.Soundness
use signal_bot_tee.Payments.Chains.Solana.Soundness.{solana_deposit-IsBacked}
use signal_bot_tee.Tests.Credits.{alice}
use signal_bot_tee.Tests.Persistence.{Disk, small_platform, store}

abbrev wallet : String
wallet = "0x00000000000000000000000000000000000000aa"

abbrev transfer_log : TxLog
transfer_log = record {
  address = "0xusdc";
  topics =
      transfer_event_signature
      ∷ "0x00000000000000000000000000000000000000000000000000000000000000bb"
      ∷ "0x00000000000000000000000000000000000000000000000000000000000000aa" ∷ [];
  payload = "0xf4240";
}

abbrev receipt : TxReceipt
receipt = record {
  status = "0x1";
  block_number = some "0x10";
  logs = record transfer_log { address = "0xother" } ∷ transfer_log ∷ [];
}

abbrev pub base_node : BaseFacilitator Disk
base_node = record {
  usdc_contract = "0xusdc";
  wallet_address = wallet;
  to_lowercase = λ s. s;
  eth_get_transaction_receipt =
      λ tx_hash w. (ok (record { result = some (some receipt); has_error = false }), w);
  eth_block_number = λ w. (ok (record { result = some "0x1a"; has_error = false }), w);
}

abbrev pub payload : PaymentPayload
payload = record {
  chain = base;
  tx_hash = "0xfeed";
  from = none;
  amount = some 1000000;
  user_id = alice;
}

abbrev pub on_base_verified : PaymentVerification
on_base_verified = record {
  tx_hash = "0xfeed";
  amount_usdc = 1000000;
  from = some "0x00000000000000000000000000000000000000bb";
  to = wallet;
  confirmations = 10;
  is_verified = true;
}

pub verified_on_base : (verify_payment base_node payload store.world).0 ≡ ok on_base_verified
unfolding verify_payment
verified_on_base = refl

verify_payment-IsBacked_example :
    (on_base_verified.is_verified ≡ true)
    × ((sender : String) × (on_base_verified.from ≡ some sender)
        × IsBacked base_node payload store.world sender 1000000)
verify_payment-IsBacked_example =
    verify_payment-IsBacked base_node payload store.world {v = on_base_verified} verified_on_base

abbrev near_node : NearFacilitator Disk
near_node = record {
  usdc_contract = "usdc.near";
  deposit_account = "aa";
  decode_args = λ s. none;
  tx = λ tx_hash sender w. (ok (record { result = none; has_error = true }), w);
  ft_balance_of =
      λ token account w. (ok (record { result = some (some "5"); has_error = false }), w);
  broadcast_transfer = λ to amount w. (err invalid_payload, w);
}

-- The wallet held nothing before, and one dollar after.
abbrev received : TokenBalance
received = record { account_index = 1; mint = "usdc"; owner = some "wallet"; amount = "1000000" }

abbrev solana_node : SolanaFacilitator Disk
solana_node = record {
  usdc_mint = "usdc";
  wallet_pubkey = "wallet";
  rpc_get_transaction = λ signature w. (
    ok (record {
      result = some (
          some (record {
            has_err = false;
            pre_token_balances = none;
            post_token_balances = some (received ∷ []);
          }));
      has_error = false;
    }),
    w,
  );
  is_pubkey = λ s. true;
  get_token_account_balance = λ w. (ok "1000000", w);
  send_transfer = λ to amount w. (err invalid_payload, w);
}

abbrev two_chains : AppState Disk
unfolding near_facilitator solana_facilitator
two_chains = record {
  configs = record {
    on_base = none;
    on_near =
        some (record { enabled = true; token_contract = "usdc.near"; operator_address = none });
    on_solana = some (record { enabled = true; token_contract = "usdc"; operator_address = none });
  };
  pricing = default_pricing;
  facilitators = record {
    on_base = none;
    on_near = some (near_facilitator near_node);
    on_solana = some (solana_facilitator solana_node);
  };
}

abbrev deposit_on_near : DepositRequest
deposit_on_near = record { chain = near; tx_hash = "abc"; user_id = alice; amount = 1000000 }

abbrev deposit_on_solana : DepositRequest
deposit_on_solana = record { chain = solana; tx_hash = "xyz"; user_id = alice; amount = 1000000 }

solana_deposit-IsBacked_example :
    let t = (process_deposit small_platform two_chains "d9" 5 deposit_on_solana store).1 in
    (t.store_data ≡ store.store_data)
    ⊎ ((v : PaymentVerification) × Soundness.IsBacked solana_node "xyz" store.world 1000000
        × (v.amount_usdc ≡ 1000000)
        × (is_tx_processed "xyz" store.store_data ≡ false)
        × (t.store_data
            ≡ (grant 5
                (confirmed_deposit small_platform two_chains "d9" 5 deposit_on_solana v)
                store.store_data).1))
unfolding two_chains
solana_deposit-IsBacked_example =
    solana_deposit-IsBacked small_platform two_chains solana_node "d9" 5 deposit_on_solana store
      refl refl
