-- ===== src/Tests/Wallets.antt =====
-- The wallet on Base: the balance that a contract tells, and the status of a deposit.
use signal_bot_tee.Common.{◌≡◌, refl, true, false, none, some, ok}
use signal_bot_tee.Common.Text.{byte_length}
use signal_bot_tee.Payments.Chains.Base.Wallet.{
  BaseWallet, confirmed_tx, get_tx_status, get_deposit_wallet_balance, pad_address,
}
use signal_bot_tee.Payments.Chains.Base.Confirmations.{verify_payment-get_tx_status}
use signal_bot_tee.Tests.Persistence.{Disk, store}
use signal_bot_tee.Tests.Chains.{base_node, payload, verified_on_base}

abbrev base_wallet : BaseWallet Disk
base_wallet = record {
  enabled = true;
  rpc_url = "http://base";
  parse_address = λ s. some s;
  is_url = λ s. true;
  eth_call = λ token call w. (ok (record { result = some "0x1312d00"; has_error = false }), w);
  send_transfer = λ token to amount w. (none, w);
}

padded : byte_length (pad_address "0x00000000000000000000000000000000000000aa") ≡ 64
unfolding pad_address
padded = refl

twenty_dollars : (get_deposit_wallet_balance base_node base_wallet store.world).0 ≡ ok 20000000
unfolding get_deposit_wallet_balance
twenty_dollars = refl

verify_payment-get_tx_status_example :
    (get_tx_status base_node base_wallet "0xfeed" store.world).0 ≡ ok (confirmed_tx 10)
verify_payment-get_tx_status_example =
    verify_payment-get_tx_status base_node base_wallet payload store.world verified_on_base
