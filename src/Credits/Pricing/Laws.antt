-- ===== src/Credits/Pricing/Laws.antt =====
-- What a message costs: floors, overflow, rounding and monotonicity of the price.
use signal_bot_tee.Common.{ℕ, ◌+◌, ◌*◌, ◌/◌, ◌≤◌, ◌<◌, ◌≡◌, max, arith, u32_max}
use signal_bot_tee.Credits.Pricing.{
  PricingConfig, TokenUsage, cost_of, calculate_credits, estimate_credits,
}

-- Counts fit a `u32`, and a rate is at most 2^32 credits (4294 USDC) per million tokens.
pub record IsPriceable (usage : TokenUsage) (config : PricingConfig) : Type 0 where
  pub prompt_fits : usage.prompt_tokens ≤ u32_max
  pub completion_fits : usage.completion_tokens ≤ u32_max
  pub prompt_rate : config.prompt_credits_per_million ≤ u32_max + 1
  pub completion_rate : config.completion_credits_per_million ≤ u32_max + 1

product_fits : (t r : ℕ) → t ≤ u32_max → r ≤ u32_max + 1 → t * r ≤ u32_max * (u32_max + 1)
product_fits t r ht hr = grind arith

cost_exact : (t r : ℕ) → t ≤ u32_max → r ≤ u32_max + 1 → cost_of t r ≡ (t * r) / 1000000
unfolding cost_of
cost_exact t r ht hr = omega (arith, product_fits t r ht hr)

cost_small : (t r : ℕ) → cost_of t r < 18446744073710
unfolding cost_of
cost_small t r = omega arith

-- The price in unbounded arithmetic.
abbrev pub exact_price : TokenUsage → PricingConfig → ℕ
exact_price u c =
    max
      (u.prompt_tokens * c.prompt_credits_per_million / 1000000
        + u.completion_tokens * c.completion_credits_per_million / 1000000)
      c.minimum_credits_per_message

-- For counts that fit a `u32` and rates up to 2 ^ 32 no step of the price wraps: it is the price in
-- unbounded arithmetic.
pub calculate_credits-exact :
    (u : TokenUsage) (c : PricingConfig) → IsPriceable u c → calculate_credits u c ≡ exact_price u c
unfolding calculate_credits
calculate_credits-exact u c h = omega (
  arith,
  cost_small u.prompt_tokens c.prompt_credits_per_million,
  cost_small u.completion_tokens c.completion_credits_per_million,
  cost_exact u.prompt_tokens c.prompt_credits_per_million h.prompt_fits h.prompt_rate,
  cost_exact u.completion_tokens c.completion_credits_per_million h.completion_fits
      h.completion_rate,
)

pub minimum-le-calculate_credits :
    (u : TokenUsage) (c : PricingConfig) → c.minimum_credits_per_message ≤ calculate_credits u c
unfolding calculate_credits
minimum-le-calculate_credits u c = omega arith

pub minimum-le-estimate_credits :
    (n : ℕ) (c : PricingConfig) → c.minimum_credits_per_message ≤ estimate_credits n c
unfolding estimate_credits
minimum-le-estimate_credits n c = minimum-le-calculate_credits _ c

mul_mono : (a b c d : ℕ) → a ≤ b → c ≤ d → a * c ≤ b * d
mul_mono a b c d h k = grind arith

-- With rates up to 2 ^ 32 and counts that fit a `u32`, more tokens never cost less.
pub calculate_credits_mono :
    (u v : TokenUsage) (c : PricingConfig)
    → IsPriceable v c
    → u.prompt_tokens ≤ v.prompt_tokens
    → u.completion_tokens ≤ v.completion_tokens
    → calculate_credits u c ≤ calculate_credits v c
calculate_credits_mono u v c h p q = omega (
  arith,
  calculate_credits-exact v c h,
  calculate_credits-exact u c (record {
    prompt_fits = omega arith;
    completion_fits = omega arith;
    prompt_rate = h.prompt_rate;
    completion_rate = h.completion_rate;
  }),
  mul_mono u.prompt_tokens v.prompt_tokens c.prompt_credits_per_million c.prompt_credits_per_million
      p (omega arith),
  mul_mono u.completion_tokens v.completion_tokens c.completion_credits_per_million
      c.completion_credits_per_million q (omega arith),
)

-- The price in millionths of a credit, before any rounding.
abbrev pub millionths : TokenUsage → PricingConfig → ℕ
millionths u c =
    u.prompt_tokens * c.prompt_credits_per_million
    + u.completion_tokens * c.completion_credits_per_million

-- For counts that fit a `u32` and rates up to 2 ^ 32 the price is at most the unrounded one, or the
-- minimum if that is more, and falls short of the unrounded one by less than two credits.
pub calculate_credits_rounding :
    (u : TokenUsage) (c : PricingConfig)
    → IsPriceable u c
    → (calculate_credits u c * 1000000
        ≤ max (millionths u c) (c.minimum_credits_per_message * 1000000))
      × (millionths u c < calculate_credits u c * 1000000 + 2000000)
calculate_credits_rounding u c h = omega (arith, calculate_credits-exact u c h)
