-- ===== src/Tests/Advertising.antt =====
-- A server that starts with Base, and with NEAR enabled but failing to start.
use signal_bot_tee.Common.{◌≡◌, refl, String, true, none, some, ok, err, str_eq, if◌then◌else◌}
use signal_bot_tee.Credits.Types.{base, internal}
use signal_bot_tee.Payments.Facilitator.{ChainConfig}
use signal_bot_tee.Payments.Deposits.{AppState}
use signal_bot_tee.Payments.Advertising.{
  get_deposit_address, chain_of, get_pricing, start_facilitators, initialize, chain_not_available,
  unknown_chain,
}
use signal_bot_tee.Payments.Advertising.Agreeing.{get_pricing-get_deposit_address, listed, answered}
use signal_bot_tee.Tests.Payments.{node, api}
use signal_bot_tee.Tests.Persistence.{Disk, store}

abbrev near_config : ChainConfig
near_config = record { enabled = true; token_contract = "usdc.near"; operator_address = none }

abbrev two_chains : AppState Disk
two_chains = record api {
  configs = record { on_base = api.configs.on_base; on_near = some near_config; on_solana = none };
}

abbrev lowered : String → String
lowered name = if str_eq name "Base" then "base" else name

-- NEAR is configured, but has no facilitator.
near_failed : get_deposit_address two_chains lowered "near" ≡ err chain_not_available
unfolding get_deposit_address chain_of
near_failed = refl

unknown_name : get_deposit_address two_chains lowered "tron" ≡ err (unknown_chain "tron")
unfolding get_deposit_address chain_of
unknown_name = refl

get_pricing-get_deposit_address_example :
    listed base (get_pricing two_chains (λ n. "$")).supported_chains
    ≡ answered (get_deposit_address two_chains lowered "Base")
unfolding start_facilitators initialize
get_pricing-get_deposit_address_example =
    get_pricing-get_deposit_address two_chains (λ n. "$")
      (record {
        on_base = λ c w. (ok node, w);
        on_near = λ c w. (err internal, w);
        on_solana = λ c w. (err internal, w);
      })
      store.world refl lowered "Base" base refl
