-- ===== src/Payments/Advertising.antt =====
-- crates/x402-payments/src/api/handlers.rs: the handlers that read, which tell a user where to deposit,
-- and crates/x402-payments/src/lib.rs: which facilitators there are when the server starts.
pub mod Agreeing
use signal_bot_tee.Common.{
  ℕ, String, str_eq, Bool, true, false, ◌||◌, Option, none, some, List, [], ◌∷◌, ◌++◌, Result, ok,
  err, if◌then◌else◌, unwrap_or,
}
use mathlib.Core.Option
use signal_bot_tee.Credits.Types.{Chain, base, near, solana, Deposit, PaymentError}
use signal_bot_tee.Credits.Pricing.{PricingConfig}
use signal_bot_tee.Credits.Store.Data.{CreditStoreData, get_balance, get_deposits}
use signal_bot_tee.Payments.Facilitator.{Facilitator, ChainConfig, PerChain, of_chain}
use signal_bot_tee.Payments.Deposits.{AppState, is_enabled}

pub record BalanceResponse : Type 0 where
  pub user_id : String
  pub credits_remaining : ℕ
  pub credits_remaining_usdc : String
  pub total_deposited_usdc : String
  pub total_consumed_usdc : String

-- The handler `get_balance`; `format_usdc` writes an amount with `f64`.
unfoldable pub balance_response : (ℕ → String) → ℕ → String → CreditStoreData → BalanceResponse
unfolding get_balance
balance_response format_usdc now user_id d =
    let b = get_balance now user_id d in
    record {
      user_id = b.user_id;
      credits_remaining = b.credits_remaining;
      credits_remaining_usdc = format_usdc b.credits_remaining;
      total_deposited_usdc = format_usdc b.total_deposited;
      total_consumed_usdc = format_usdc b.total_consumed;
    }

pub record DepositAddressResponse : Type 0 where
  pub chain : Chain
  pub address : String
  pub token : String
  pub token_contract : String
  pub memo : Option String

-- The codes of `ErrorResponse` of get_deposit_address
pub data AddressError : Type 0 where
  unknown_chain : String → AddressError
  chain_disabled chain_not_available : AddressError

-- The text of a chain, in lower case
unfoldable pub chain_of : String → Option Chain
chain_of name =
    if str_eq name "base"
    then some base
    else if str_eq name "near"
    then some near
    else if str_eq name "solana"
    then some solana
    else none

pub record ChainInfo : Type 0 where
  pub chain : Chain
  pub enabled : Bool
  pub token : String
  pub deposit_address : String

pub record PricingResponse : Type 0 where
  pub prompt_cost_per_million_tokens : String
  pub completion_cost_per_million_tokens : String
  pub minimum_per_message : String
  pub supported_chains : List ChainInfo

pub record ChainHealth : Type 0 where
  pub chain : Chain
  pub enabled : Bool
  pub healthy : Bool

pub record HealthResponse : Type 0 where
  pub healthy : Bool
  pub payments_enabled : Bool
  pub chains : List ChainHealth

-- `c.is_some_and(|c| c.enabled)`, for `PaymentConfig::enabled_chains`
abbrev pub chain_if : Bool → Chain → List Chain
chain_if true chain = chain ∷ []
chain_if false chain = []

unfoldable pub enabled_chains : PerChain (Option ChainConfig) → List Chain
enabled_chains configs =
    chain_if (is_enabled configs.on_base) base
    ++ (chain_if (is_enabled configs.on_near) near
        ++ chain_if (is_enabled configs.on_solana) solana)

module _ {W : Type 0} (a : AppState W) where
  -- The `match` of a chain of get_deposit_address
  abbrev pub address_for :
      Chain
      → Option ChainConfig
      → Option (Facilitator W)
      → Result AddressError DepositAddressResponse
  address_for chain none facilitator = err chain_disabled
  address_for chain (some config) none = err chain_not_available
  address_for chain (some config) (some f) = ok (record {
    chain = chain;
    address = f.deposit_address;
    token = "USDC";
    token_contract = config.token_contract;
    memo = none;
  })

  unfoldable pub get_deposit_address :
      (String → String) → String → Result AddressError DepositAddressResponse
  unfolding chain_of
  get_deposit_address to_lowercase name = elim (chain_of (to_lowercase name)) [
    | none ↦ err (unknown_chain name)
    | some chain ↦ address_for chain (of_chain chain a.configs) (of_chain chain a.facilitators)
  ]

  abbrev pub info_of : Chain → Option (Facilitator W) → List ChainInfo
  info_of chain none = []
  info_of chain (some f) =
      record { chain = chain; enabled = true; token = "USDC"; deposit_address = f.deposit_address }
      ∷ []

  -- `filter_map` over the chains that are enabled
  unfoldable pub infos_of : List Chain → List ChainInfo
  infos_of [] = []
  infos_of (chain ∷ chains) = info_of chain (of_chain chain a.facilitators) ++ infos_of chains

  unfoldable pub get_pricing : (ℕ → String) → PricingResponse
  unfolding infos_of enabled_chains
  get_pricing format_usdc = record {
    prompt_cost_per_million_tokens = format_usdc a.pricing.prompt_credits_per_million;
    completion_cost_per_million_tokens = format_usdc a.pricing.completion_credits_per_million;
    minimum_per_message = format_usdc a.pricing.minimum_credits_per_message;
    supported_chains = infos_of (enabled_chains a.configs);
  }

  -- `unwrap_or(false)` of a facilitator's health check, which may call its node
  abbrev pub healthy_of :
      (Facilitator W → W → Result PaymentError Bool × W) → Option (Facilitator W) → W → Bool × W
  healthy_of check none w = (false, w)
  healthy_of check (some f) w =
      let (r, w') = check f w in ((elim r [ ok h ↦ h | err e ↦ false ]), w')

  unfoldable pub health_check :
      Bool → (Facilitator W → W → Result PaymentError Bool × W) → W → HealthResponse × W
  health_check payments_enabled check w =
      let (base_health, w1) = healthy_of check a.facilitators.on_base w in
      let (near_health, w2) = healthy_of check a.facilitators.on_near w1 in
      let (solana_health, w3) = healthy_of check a.facilitators.on_solana w2 in
      (
        record {
          healthy = base_health || near_health || solana_health;
          payments_enabled = payments_enabled;
          chains =
              record { chain = base; enabled = is_enabled a.configs.on_base; healthy = base_health }
              ∷ record {
                chain = near;
                enabled = is_enabled a.configs.on_near;
                healthy = near_health;
              }
              ∷ record {
                chain = solana;
                enabled = is_enabled a.configs.on_solana;
                healthy = solana_health;
              }
              ∷ [];
        },
        w3,
      )

-- `Facilitator::new` for a chain that is configured and enabled; what fails is left out.
abbrev pub initialized_by :
    {W : Type 0} → Result PaymentError (Facilitator W) × W → Option (Facilitator W) × W
initialized_by (ok f, w) = (some f, w)
initialized_by (err e, w) = (none, w)

unfoldable pub initialize :
    {W : Type 0}
    → (ChainConfig → W → Result PaymentError (Facilitator W) × W)
    → Option ChainConfig
    → W
    → Option (Facilitator W) × W
initialize new none w = (none, w)
initialize new (some config) w = if config.enabled then initialized_by (new config w) else (none, w)

-- The facilitators of the server, in the order in which they are made
unfoldable pub start_facilitators :
    {W : Type 0}
    → PerChain (ChainConfig → W → Result PaymentError (Facilitator W) × W)
    → PerChain (Option ChainConfig)
    → W
    → PerChain (Option (Facilitator W)) × W
unfolding initialize
start_facilitators new configs w =
    let (on_base, w1) = initialize new.on_base configs.on_base w in
    let (on_near, w2) = initialize new.on_near configs.on_near w1 in
    let (on_solana, w3) = initialize new.on_solana configs.on_solana w2 in
    (record { on_base = on_base; on_near = on_near; on_solana = on_solana }, w3)
