-- ===== src/Chat/Types.antt =====
-- What crates/signal-bot/src/commands/chat.rs calls: the model, the tools and the Signal client. `W`
-- is the state of all that; the clocks are read from it.
use signal_bot_tee.Common.{ℕ, String, Bool, Option, List, Result, unwrap_or, str_eq, if◌then◌else◌}
use signal_bot_tee.Conversation.Types.{StoredToolCall, OpenAiMessage}
use signal_bot_tee.Credits.Pricing.{TokenUsage}

pub data Role : Type 0 where
  system_role user_role assistant_role tool_role : Role

-- `near_ai_client::Message`, with the calls as they are stored
pub record Message : Type 0 where
  pub role : Role
  pub content : Option String
  pub tool_call_id : Option String
  pub tool_calls : Option (List StoredToolCall)

unfoldable pub role_of : String → Role
role_of s =
    if str_eq s "system"
    then system_role
    else if str_eq s "assistant"
    then assistant_role
    else if str_eq s "tool"
    then tool_role
    else user_role

-- The closure of `build_messages`
unfoldable pub to_message : OpenAiMessage → Message
unfolding role_of
to_message m = record {
  role = role_of m.role;
  content = m.content;
  tool_call_id = m.tool_call_id;
  tool_calls = m.tool_calls;
}

-- The errors of the model that the handler tells apart
pub data NearAiError : Type 0 where
  rate_limit empty_response other_error : NearAiError

-- The answer of `chat_with_tools`
pub record Response : Type 0 where
  pub content : Option String
  pub tool_calls : Option (List StoredToolCall)
  pub usage : Option TokenUsage

-- The time stamp is left out: only the translation reads it.
pub record BotMessage : Type 0 where
  pub source : String
  pub source_number : Option String
  pub text : String
  pub is_group : Bool
  pub group_id : Option String
  pub receiving_account : String

-- `BotMessage::reply_target`
unfoldable pub reply_target : BotMessage → String
reply_target m = unwrap_or m.group_id m.source

pub record Services (W : Type 0) : Type 0 where
  -- the two clocks of the conversation store
  pub now : W → ℕ
  pub utc : W → ℕ
  -- the system prompt with the identity and the time
  pub build_system_prompt : W → String
  -- `chat_with_tools`: the messages, and whether the tools are offered
  pub chat_with_tools : List Message → Bool → W → Result NearAiError Response × W
  -- `SignalClient::send`, whose errors are logged
  pub send : String → String → String → W → W
  -- `ToolExecutor::execute`: the content of its result, of a success or of a failure
  pub run_tool : StoredToolCall → W → String × W
  -- `ToolRegistry::get_definitions` is not empty
  pub has_tools : W → Bool
