-- ===== src/Chat/Usage.antt =====
-- crates/signal-bot/src/commands/chat.rs: the tokens of several replies, added up.
use signal_bot_tee.Common.{ℕ, ◌+◌, ◌%◌, Option, none, some, List, [], ◌∷◌}
use signal_bot_tee.Credits.Pricing.{TokenUsage}

abbrev pub prompts : TokenUsage → ℕ
prompts u = u.prompt_tokens

abbrev pub completions : TokenUsage → ℕ
completions u = u.completion_tokens

-- A sum of `u32` numbers, as a release build adds them up
abbrev pub added : (TokenUsage → ℕ) → ℕ → List (Option TokenUsage) → ℕ
added count total [] = total
added count total (none ∷ us) = added count total us
added count total (some u ∷ us) = added count ((total + count u) % 4294967296) us
