-- ===== src/Conversation/Store/Events.antt =====
-- crates/conversation-store/src/store.rs: what a store is sent over its life, and an abstract view of
-- one user of it, which keeps the user's whole history, its expiry, and nothing of other users.
use signal_bot_tee.Common.{
  ℕ, ◌+◌, String, Option, none, some, List, [], ◌∷◌, ◌++◌, ltb, last_n, if◌then◌else◌, str_eq,
}
use signal_bot_tee.Common.Table.{only_if}
use signal_bot_tee.Conversation.Types.{
  StoredToolCall, StoredMessage, new_message, with_tool_calls, tool_result,
}
use signal_bot_tee.Conversation.Store.{
  ConversationEntry, ConversationStore, cleanup, add_message, add_assistant_with_tools,
  add_tool_result, clear,
}

-- What is sent to the store, and when: the two clocks come first.
pub data Event : Type 0 where
  say : ℕ → ℕ → String → String → String → Option String → Event
  call_tools : ℕ → ℕ → String → Option String → List StoredToolCall → Event
  report_tool : ℕ → ℕ → String → String → String → Event
  forget : String → Event
  sweep : ℕ → Event

unfoldable pub apply : Event → ConversationStore → ConversationStore
unfolding add_message add_assistant_with_tools add_tool_result clear cleanup
apply (say now utc u role content prompt) s = (add_message now utc u role content prompt s).1
apply (call_tools now utc u content calls) s =
    (add_assistant_with_tools now utc u content calls s).1
apply (report_tool now utc u id content) s = (add_tool_result now utc u id content s).1
apply (forget u) s = (clear u s).1
apply (sweep now) s = cleanup now s

unfoldable pub apply_all : List Event → ConversationStore → ConversationStore
unfolding apply
apply_all [] s = s
apply_all (e ∷ es) s = apply_all es (apply e s)

-- A user's history: when it expires, and every message since it began.
abbrev pub History : Type 0
History = Option (ℕ × List StoredMessage)

abbrev pub log_of : History → List StoredMessage
log_of none = []
log_of (some h) = h.1

abbrev pub extend : ℕ → StoredMessage → History → History
extend expiry m h = some (expiry, log_of h ++ m ∷ [])

unfoldable pub record_event : ℕ → String → Event → History → History
unfolding new_message with_tool_calls tool_result
record_event ttl u (say now utc v role content prompt) h =
    if str_eq v u then extend (now + ttl) (new_message utc role content) h else h
record_event ttl u (call_tools now utc v content calls) h =
    if str_eq v u then extend (now + ttl) (with_tool_calls utc "assistant" content calls) h else h
record_event ttl u (report_tool now utc v id content) h =
    if str_eq v u then extend (now + ttl) (tool_result utc id content) h else h
record_event ttl u (forget v) h = if str_eq v u then none else h
record_event ttl u (sweep now) h = only_if (λ e. ltb now e.0) h

unfoldable pub record_all : ℕ → String → List Event → History → History
unfolding record_event
record_all ttl u [] h = h
record_all ttl u (e ∷ es) h = record_all ttl u es (record_event ttl u e h)

-- What the store holds of a user, and what it should hold of a history.
abbrev pub held : Option ConversationEntry → History
held none = none
held (some e) = some (e.expires_at, e.conversation.messages)

abbrev pub window : ℕ → History → History
window n none = none
window n (some h) = some (h.0, last_n n h.1)
