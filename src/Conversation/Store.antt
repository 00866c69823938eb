-- ===== src/Conversation/Store.antt =====
-- crates/conversation-store/src/store.rs
pub mod Events
pub mod Expiry
pub mod Window
use signal_bot_tee.Common.{
  ℕ, ◌+◌, ◌/◌, String, Bool, true, false, Option, none, some, List, [], ◌∷◌, ◌++◌, map, ltb, ◌==◌,
  length, keep_if, is_some, unwrap_or, if◌then◌else◌,
}
use signal_bot_tee.Common.Table
use signal_bot_tee.Common.Table.{Table, only_if}
use signal_bot_tee.Conversation.Types.{
  StoredToolCall, StoredMessage, Conversation, OpenAiMessage, new_message, with_tool_calls,
  tool_result, new_conversation, push_message, append_message, trim,
}

pub record ConversationEntry : Type 0 where
  pub conversation : Conversation
  pub expires_at : ℕ

pub record ConversationStore : Type 0 where
  pub conversations : Table ConversationEntry
  pub max_messages : ℕ
  pub ttl : ℕ

unfoldable pub new_store : ℕ → ℕ → ConversationStore
new_store max_messages ttl = record { conversations = []; max_messages = max_messages; ttl = ttl }

-- `entry.expires_at > now`
unfoldable pub is_live : ℕ → ConversationEntry → Bool
is_live now entry = ltb now entry.expires_at

-- One round of `cleanup_loop`
unfoldable pub cleanup : ℕ → ConversationStore → ConversationStore
cleanup now s = record s { conversations = Table.retain (is_live now) s.conversations }

abbrev pub conversation_of : Option ConversationEntry → Option Conversation
conversation_of none = none
conversation_of (some entry) = some entry.conversation

unfoldable pub get : ℕ → String → ConversationStore → Option Conversation
get now user_id s = conversation_of (only_if (is_live now) (Table.get user_id s.conversations))

-- What `entry(user).or_insert_with(new)` finds or makes: also an entry that has expired and was
-- not cleaned up yet.
unfoldable pub entry_or_new : ℕ → ℕ → String → Option String → ConversationStore → ConversationEntry
entry_or_new now utc user_id system_prompt s =
    unwrap_or (Table.get user_id s.conversations) (record {
      conversation = new_conversation utc user_id system_prompt;
      expires_at = now + s.ttl;
    })

abbrev pub set_prompt : Option String → Conversation → Conversation
set_prompt none c = c
set_prompt (some prompt) c = record c { system_prompt = some prompt }

abbrev pub write_back :
    ℕ → String → Conversation → ConversationStore → Conversation × ConversationStore
write_back now user_id c s = (
  c,
  record s {
    conversations =
        Table.put user_id (record { conversation = c; expires_at = now + s.ttl }) s.conversations;
  },
)

unfoldable pub add_message :
    ℕ
    → ℕ
    → String
    → String
    → String
    → Option String
    → ConversationStore
    → Conversation × ConversationStore
unfolding entry_or_new
add_message now utc user_id role content system_prompt s =
    let entry = entry_or_new now utc user_id system_prompt s in
    let c = append_message utc role content (set_prompt system_prompt entry.conversation) in
    write_back now user_id (trim s.max_messages c) s

unfoldable pub add_message_internal :
    ℕ → ℕ → String → StoredMessage → ConversationStore → Conversation × ConversationStore
unfolding entry_or_new
add_message_internal now utc user_id message s =
    let entry = entry_or_new now utc user_id none s in
    write_back now user_id (trim s.max_messages (push_message utc message entry.conversation)) s

unfoldable pub add_assistant_with_tools :
    ℕ
    → ℕ
    → String
    → Option String
    → List StoredToolCall
    → ConversationStore
    → Conversation × ConversationStore
unfolding add_message_internal
add_assistant_with_tools now utc user_id content tool_calls =
    add_message_internal now utc user_id (with_tool_calls utc "assistant" content tool_calls)

unfoldable pub add_tool_result :
    ℕ → ℕ → String → String → String → ConversationStore → Conversation × ConversationStore
unfolding add_message_internal
add_tool_result now utc user_id tool_call_id content =
    add_message_internal now utc user_id (tool_result utc tool_call_id content)

unfoldable pub clear : String → ConversationStore → Bool × ConversationStore
clear user_id s = (
  is_some (Table.get user_id s.conversations),
  record s { conversations = Table.remove user_id s.conversations },
)

abbrev pub messages_of : Option Conversation → List StoredMessage
messages_of none = []
messages_of (some c) = c.messages

unfoldable pub to_openai : StoredMessage → OpenAiMessage
to_openai m = record {
  role = m.role;
  content = m.content;
  tool_calls = m.tool_calls;
  tool_call_id = m.tool_call_id;
}

-- The prompt given, else the one of the conversation.
abbrev pub prompt_of : Option String → Option Conversation → Option String
prompt_of (some p) c = some p
prompt_of none none = none
prompt_of none (some c) = c.system_prompt

abbrev pub system_messages : Option String → List OpenAiMessage
system_messages none = []
system_messages (some p) =
    record { role = "system"; content = some p; tool_calls = none; tool_call_id = none } ∷ []

unfoldable pub to_openai_messages :
    ℕ → String → Option String → ConversationStore → List OpenAiMessage
unfolding get to_openai
to_openai_messages now user_id system_prompt s =
    let conv = get now user_id s in
    system_messages (prompt_of system_prompt conv) ++ map to_openai (messages_of conv)

unfoldable pub message_count : ℕ → String → ConversationStore → ℕ
unfolding get
message_count now user_id s = length (messages_of (get now user_id s))

unfoldable pub conversation_count : ℕ → ConversationStore → ℕ
conversation_count now s = length (keep_if (is_live now) (Table.values s.conversations))

-- `timestamp.date_naive()`: the day, in days since the epoch
abbrev pub date_of : ℕ → ℕ
date_of utc = utc / 86400

unfoldable pub get_today_messages : ℕ → ℕ → String → ConversationStore → List StoredMessage
unfolding get
get_today_messages now utc user_id s =
    keep_if (λ m. date_of m.timestamp == date_of utc) (messages_of (get now user_id s))
