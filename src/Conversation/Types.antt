-- ===== src/Conversation/Types.antt =====
-- crates/conversation-store/src/types.rs
use signal_bot_tee.Common.{
  ℕ, ◌-◌, String, Option, none, some, List, [], ◌∷◌, ◌++◌, ltb, length, drop, if◌then◌else◌,
}

pub record StoredToolCall : Type 0 where
  pub id : String
  pub name : String
  pub arguments : String

pub record StoredMessage : Type 0 where
  pub role : String
  pub content : Option String
  pub timestamp : ℕ
  pub tool_calls : Option (List StoredToolCall)
  pub tool_call_id : Option String

-- `StoredMessage::new`
unfoldable pub new_message : ℕ → String → String → StoredMessage
new_message utc role content = record {
  role = role;
  content = some content;
  timestamp = utc;
  tool_calls = none;
  tool_call_id = none;
}

-- `StoredMessage::with_tool_calls`
unfoldable pub with_tool_calls : ℕ → String → Option String → List StoredToolCall → StoredMessage
with_tool_calls utc role content tool_calls = record {
  role = role;
  content = content;
  timestamp = utc;
  tool_calls = some tool_calls;
  tool_call_id = none;
}

-- `StoredMessage::tool_result`
unfoldable pub tool_result : ℕ → String → String → StoredMessage
tool_result utc tool_call_id content = record {
  role = "tool";
  content = some content;
  timestamp = utc;
  tool_calls = none;
  tool_call_id = some tool_call_id;
}

pub record Conversation : Type 0 where
  pub user_id : String
  pub messages : List StoredMessage
  pub system_prompt : Option String
  pub created_at : ℕ
  pub updated_at : ℕ

-- `Conversation::new`
unfoldable pub new_conversation : ℕ → String → Option String → Conversation
new_conversation utc user_id system_prompt = record {
  user_id = user_id;
  messages = [];
  system_prompt = system_prompt;
  created_at = utc;
  updated_at = utc;
}

-- `messages.push(m)`, and the time of the change
unfoldable pub push_message : ℕ → StoredMessage → Conversation → Conversation
push_message utc m c = record c { messages = c.messages ++ m ∷ []; updated_at = utc }

-- `Conversation::add_message`
unfoldable pub append_message : ℕ → String → String → Conversation → Conversation
unfolding new_message push_message
append_message utc role content c = push_message utc (new_message utc role content) c

-- `Conversation::trim`
unfoldable pub trim : ℕ → Conversation → Conversation
trim max_messages c =
    let n = length c.messages in
    if ltb max_messages n then record c { messages = drop (n - max_messages) c.messages } else c

pub record OpenAiMessage : Type 0 where
  pub role : String
  pub content : Option String
  pub tool_calls : Option (List StoredToolCall)
  pub tool_call_id : Option String
