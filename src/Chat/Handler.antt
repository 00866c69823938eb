-- ===== src/Chat/Handler.antt =====
-- crates/signal-bot/src/commands/chat.rs: `ChatHandler::execute`. The state is the conversation store
-- and the credit store, whose world the services share.
use signal_bot_tee.Common.{
  ℕ, zero, suc, ◌+◌, ◌%◌, String, Bool, true, false, not, ◌&&◌, Option, none, some, List, [], ◌∷◌,
  map, text_append, unwrap_or, Result, ok, err, u32_max, if◌then◌else◌,
}
use signal_bot_tee.Common.Text.{byte_length}
use signal_bot_tee.Conversation.Types.{StoredToolCall}
use signal_bot_tee.Conversation.Store.{
  ConversationStore, add_message, add_assistant_with_tools, add_tool_result, to_openai_messages,
}
use signal_bot_tee.Credits.Types.{UsageRecord, new_usage, CreditBalance, PaymentError}
use signal_bot_tee.Credits.Pricing.{TokenUsage, PricingConfig, estimate_credits, calculate_credits}
use signal_bot_tee.Credits.Store.Data.{has_credits, get_balance}
use signal_bot_tee.Credits.Store.Platform.{Platform}
use signal_bot_tee.Credits.Store.Persist.{CreditStore, deduct_credits}
use signal_bot_tee.Chat.Types.{
  Message, NearAiError, rate_limit, empty_response, other_error, Response, BotMessage, Services,
  to_message, reply_target,
}

-- The settings of a `ChatHandler`
pub record ChatHandler : Type 0 where
  pub system_prompt : String
  pub max_tool_iterations : ℕ
  pub payments_enabled : Bool
  pub pricing_config : PricingConfig

pub record Bot (W : Type 0) : Type 0 where
  pub conversations : ConversationStore
  pub credits : CreditStore W

-- What is answered: the text of a refusal stands in the source, and the line with the cost is kept as
-- its amounts, the credits used and those that remain.
pub data Answer : Type 0 where
  insufficient : ℕ → Answer
  too_many_requests no_response ai_unavailable too_many_tools : Answer
  final : String → Option (ℕ × ℕ) → Answer

-- What the loop carries from one round to the next
pub record Progress : Type 0 where
  pub tools_executed : Bool
  pub total_prompt_tokens : ℕ
  pub total_completion_tokens : ℕ

abbrev pub start : Progress
start = record { tools_executed = false; total_prompt_tokens = 0; total_completion_tokens = 0 }

-- The `u32` totals wrap in a release build.
unfoldable pub accumulate : Option TokenUsage → Progress → Progress
accumulate none v = v
accumulate (some u) v = record v {
  total_prompt_tokens = (v.total_prompt_tokens + u.prompt_tokens) % (u32_max + 1);
  total_completion_tokens = (v.total_completion_tokens + u.completion_tokens) % (u32_max + 1);
}

abbrev pub answer_of_error : NearAiError → Answer
answer_of_error rate_limit = too_many_requests
answer_of_error empty_response = no_response
answer_of_error other_error = ai_unavailable

module _ {W : Type 0} (p : Platform W) (o : Services W) (h : ChatHandler) (m : BotMessage) where
  abbrev pub with_world : W → Bot W → Bot W
  with_world w s = record s { credits = record s.credits { world = w } }

  -- An operation of the conversation store, of which the returned conversation is not used
  abbrev pub converse :
      {A : Type 0} → (ℕ → ℕ → ConversationStore → A × ConversationStore) → Bot W → Bot W
  converse f s = record s {
    conversations = (f (o.now s.credits.world) (o.utc s.credits.world) s.conversations).1;
  }

  unfoldable pub build_messages : Bot W → List Message
  build_messages s = map to_message (
      to_openai_messages (o.now s.credits.world) (reply_target m)
        (some (o.build_system_prompt s.credits.world)) s.conversations)

  -- The body of the loop over the tool calls: progress message, execution, stored result
  unfoldable pub run_tools : List StoredToolCall → Bot W → Bot W
  run_tools [] s = s
  run_tools (c ∷ cs) s =
      let w1 =
        o.send m.receiving_account (reply_target m)
          (text_append "🔧 Using " (text_append c.name "...")) s.credits.world in
      let (content, w2) = o.run_tool c w1 in
      run_tools cs (
        converse (λ now utc. add_tool_result now utc (reply_target m) c.id content)
          (with_world w2 s))

  unfoldable pub finalize_response : Option String → Bot W → String × Bot W
  finalize_response content s =
      let response = unwrap_or content "I don't have a response." in
      (
        response,
        converse (λ now utc. add_message now utc (reply_target m) "assistant" response none) s,
      )

  unfoldable pub usage_of : ℕ → ℕ → Progress → UsageRecord
  unfolding new_usage
  usage_of utc credits_used v =
      new_usage utc m.source (reply_target m) v.total_prompt_tokens v.total_completion_tokens
        credits_used

  unfoldable pub cost_of_progress : Progress → ℕ
  cost_of_progress v =
      calculate_credits
        (record {
          prompt_tokens = v.total_prompt_tokens;
          completion_tokens = v.total_completion_tokens;
        })
        h.pricing_config

  abbrev pub cost_line : ℕ → Result PaymentError CreditBalance → Option (ℕ × ℕ)
  cost_line credits_used (ok b) = some (credits_used, b.credits_remaining)
  cost_line credits_used (err e) = none

  -- The end of a final round: the deduction, whose failure does not fail the answer
  unfoldable pub charge_answer : Progress → String × Bot W → Answer × Bot W
  unfolding usage_of cost_of_progress
  charge_answer v (response, s) =
      let utc = o.utc s.credits.world in
      let used = cost_of_progress v in
      let (r, credits) = deduct_credits p utc m.source used (usage_of utc used v) s.credits in
      if h.payments_enabled
      then (final response (cost_line used r), record s { credits = credits })
      else (final response none, s)

  abbrev pub requested : Option (List StoredToolCall) → List StoredToolCall
  requested none = []
  requested (some calls) = calls

  -- After a response: tool calls lead to another round, none of them to the end.
  unfoldable pub respond :
      (Progress → Bot W → Answer × Bot W)
      → Progress
      → Option String
      → List StoredToolCall
      → Bot W
      → Answer × Bot W
  unfolding charge_answer finalize_response run_tools
  respond next v content [] s = charge_answer v (finalize_response content s)
  respond next v content (c ∷ cs) s =
      next (record v { tools_executed = true })
        (run_tools (c ∷ cs) (
          converse (λ now utc. add_assistant_with_tools now utc (reply_target m) content (c ∷ cs))
            s))

  unfoldable pub after_reply :
      (Progress → Bot W → Answer × Bot W)
      → Progress
      → Result NearAiError Response
      → Bot W
      → Answer × Bot W
  unfolding respond accumulate
  after_reply next v (err e) s = (answer_of_error e, s)
  after_reply next v (ok r) s =
      respond next (accumulate r.usage v) r.content (requested r.tool_calls) s

  -- The rounds that are left
  unfoldable pub run_loop : ℕ → Progress → Bot W → Answer × Bot W
  unfolding after_reply build_messages
  run_loop zero v s = (too_many_tools, s)
  run_loop (suc n) v s =
      let offered = not v.tools_executed && o.has_tools s.credits.world in
      let (r, w) = o.chat_with_tools (build_messages s) offered s.credits.world in
      after_reply (run_loop n) v r (with_world w s)

  unfoldable pub execute : Bot W → Answer × Bot W
  unfolding run_loop
  execute s =
      let utc = o.utc s.credits.world in
      let estimate = estimate_credits (byte_length m.text) h.pricing_config in
      let poor =
        h.payments_enabled && not (has_credits utc m.source estimate s.credits.store_data) in
      if poor
      then (insufficient (get_balance utc m.source s.credits.store_data).credits_remaining, s)
      else run_loop h.max_tool_iterations start (
          converse
            (λ now utc. add_message now utc (reply_target m) "user" m.text (some h.system_prompt))
            s)
