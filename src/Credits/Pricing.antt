-- ===== src/Credits/Pricing.antt =====
-- crates/x402-payments/src/credits/pricing.rs and the pricing part of config.rs. A release build
-- wraps on overflow, so each `u64` and `u32` operation has its `%` written out.
pub mod Laws
use signal_bot_tee.Common.{ℕ, ◌+◌, ◌*◌, ◌/◌, ◌%◌, max, u32_max, u64_max}

pub record PricingConfig : Type 0 where
  pub prompt_credits_per_million : ℕ
  pub completion_credits_per_million : ℕ
  pub minimum_credits_per_message : ℕ
  pub usdc_to_credits_ratio : ℕ

-- `PricingConfig::default`
abbrev pub default_pricing : PricingConfig
default_pricing = record {
  prompt_credits_per_million = 100000;
  completion_credits_per_million = 300000;
  minimum_credits_per_message = 100;
  usdc_to_credits_ratio = 1000000;
}

pub record TokenUsage : Type 0 where
  pub prompt_tokens : ℕ
  pub completion_tokens : ℕ

-- `tokens as u64 * rate / 1_000_000`
unfoldable pub cost_of : ℕ → ℕ → ℕ
cost_of tokens rate = (tokens * rate) % (u64_max + 1) / 1000000

unfoldable pub calculate_credits : TokenUsage → PricingConfig → ℕ
calculate_credits usage config =
    let prompt_cost = cost_of usage.prompt_tokens config.prompt_credits_per_million in
    let completion_cost = cost_of usage.completion_tokens config.completion_credits_per_million in
    let total = (prompt_cost + completion_cost) % (u64_max + 1) in
    max total config.minimum_credits_per_message

unfoldable pub estimate_credits : ℕ → PricingConfig → ℕ
estimate_credits message_chars config =
    let estimated_prompt_tokens = max (message_chars / 4) 1 % (u32_max + 1) in
    let estimated_completion_tokens = (estimated_prompt_tokens * 2) % (u32_max + 1) in
    calculate_credits
      (record {
        prompt_tokens = estimated_prompt_tokens;
        completion_tokens = estimated_completion_tokens;
      })
      config

-- `PricingCalculator::usdc_to_credits`: the configured ratio is not read.
unfoldable pub usdc_to_credits : PricingConfig → ℕ → ℕ
usdc_to_credits config usdc_micro = usdc_micro
