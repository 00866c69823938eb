-- ===== src/Payments/Facilitator.antt =====
-- crates/x402-payments/src/chains/mod.rs and the chain configurations of config.rs. A facilitator is
-- what a chain offers: it calls a node, whose state is part of `W`.
use signal_bot_tee.Common.{ℕ, String, Bool, Option, none, some, Result, leb, ◌&&◌}
use signal_bot_tee.Credits.Types.{Chain, PaymentError, base, near, solana}

pub record PaymentPayload : Type 0 where
  pub chain : Chain
  pub tx_hash : String
  pub from : Option String
  pub amount : Option ℕ
  pub user_id : String

-- `PaymentPayload::new`
unfoldable pub new_payload : Chain → String → String → PaymentPayload
new_payload chain tx_hash user_id = record {
  chain = chain;
  tx_hash = tx_hash;
  from = none;
  amount = none;
  user_id = user_id;
}

unfoldable pub with_from : String → PaymentPayload → PaymentPayload
with_from from payload = record payload { from = some from }

unfoldable pub with_amount : ℕ → PaymentPayload → PaymentPayload
with_amount amount payload = record payload { amount = some amount }

pub record PaymentVerification : Type 0 where
  pub tx_hash : String
  pub amount_usdc : ℕ
  pub from : Option String
  pub to : String
  pub confirmations : ℕ
  pub is_verified : Bool

unfoldable pub is_confirmed : ℕ → PaymentVerification → Bool
is_confirmed min_confirmations v = v.is_verified && leb min_confirmations v.confirmations

pub record TxResult : Type 0 where
  pub tx_hash : String
  pub block_number : Option ℕ
  pub success : Bool

-- What the API and the sweeper use of the trait `ChainFacilitator`.
pub record Facilitator (W : Type 0) : Type 0 where
  pub chain : Chain
  pub deposit_address : String
  pub verify_payment : PaymentPayload → W → Result PaymentError PaymentVerification × W
  pub get_deposit_wallet_balance : W → Result PaymentError ℕ × W
  pub transfer_to : String → ℕ → W → Result PaymentError TxResult × W

-- What `BaseChainConfig`, `NearChainConfig` and `SolanaChainConfig` tell the API.
pub record ChainConfig : Type 0 where
  pub enabled : Bool
  pub token_contract : String
  pub operator_address : Option String

-- A value for each chain, as the fields `base`, `near` and `solana` of a struct.
pub record PerChain (A : Type 0) : Type 0 where
  pub on_base : A
  pub on_near : A
  pub on_solana : A

-- `match chain { Chain::Base => s.base, ... }`
abbrev pub of_chain : {A : Type 0} → Chain → PerChain A → A
of_chain base s = s.on_base
of_chain near s = s.on_near
of_chain solana s = s.on_solana
