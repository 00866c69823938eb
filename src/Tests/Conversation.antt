-- ===== src/Tests/Conversation.antt =====
-- A store of two messages a conversation and ten seconds of life, used by two users.
use signal_bot_tee.Common.{
  ℕ, String, ◌≡◌, refl, none, some, List, [], ◌∷◌, last_n, ltb, str_eq, if◌then◌else◌, arith,
}
use signal_bot_tee.Common.Table
use signal_bot_tee.Common.Table.{only_if, IsKeyed}
use signal_bot_tee.Conversation.Types.{
  new_conversation, append_message, trim, tool_result, push_message, StoredMessage, Conversation,
  new_message,
}
use signal_bot_tee.Conversation.Store.{
  is_live, ConversationEntry, ConversationStore, new_store, get, cleanup, clear, messages_of,
}
use signal_bot_tee.Conversation.Store.Events.{
  Event, say, report_tool, apply_all, record_all, log_of,
}
use signal_bot_tee.Conversation.Store.Expiry.{get-cleanup, get-clear}
use signal_bot_tee.Conversation.Store.Window.{get-last_n}

abbrev pub talk : List Event
talk =
    say 0 100 "ann" "user" "one" (some "be kind")
    ∷ say 1 101 "bob" "user" "hello" none
    ∷ say 2 102 "ann" "assistant" "two" none
    ∷ report_tool 3 103 "ann" "call" "three"
    ∷ []

abbrev pub seen : ℕ → String → List Event → List StoredMessage
unfolding get apply_all new_store
seen now u es = messages_of (get now u (apply_all es (new_store 2 10)))

ann_sees :
    seen 5 "ann" talk
    ≡ new_message 102 "assistant" "two"
      ∷ record {
        role = "tool";
        content = some "three";
        timestamp = 103;
        tool_calls = none;
        tool_call_id = some "call";
      }
      ∷ []
unfolding seen Table.get Table.put is_live trim push_message append_message new_conversation
    tool_result
ann_sees = refl

ann_expired : seen 13 "ann" talk ≡ []
unfolding seen Table.get Table.put is_live
ann_expired = refl

get-last_n_example :
    messages_of (get 5 "ann" (apply_all talk (new_store 2 10)))
    ≡ last_n 2 (log_of (only_if (λ e. ltb 5 e.0) (record_all 10 "ann" talk none)))
get-last_n_example = get-last_n 2 10 5 "ann" talk

abbrev pub old_conversation : Conversation
old_conversation = record {
  user_id = "ann";
  messages =
      record {
        role = "user";
        content = some "secret";
        timestamp = 7;
        tool_calls = none;
        tool_call_id = none;
      }
      ∷ [];
  system_prompt = some "be kind";
  created_at = 7;
  updated_at = 7;
}

abbrev pub old_entry : ConversationEntry
old_entry = record { conversation = old_conversation; expires_at = 20 }

abbrev pub one_kept : ConversationStore
one_kept = record { conversations = ("ann", old_entry) ∷ []; max_messages = 2; ttl = 10 }

one_kept-IsKeyed : IsKeyed one_kept.conversations
unfolding Table.get
one_kept-IsKeyed = (refl, tt)

one_kept-found : Table.get "ann" one_kept.conversations ≡ some old_entry
unfolding Table.get
one_kept-found = refl

get-cleanup_example : get 25 "ann" (cleanup 21 one_kept) ≡ get 25 "ann" one_kept
get-cleanup_example = get-cleanup 21 25 "ann" one_kept one_kept-IsKeyed (omega arith)

get-clear_example :
    get 5 "ann" ((clear "ann" one_kept).1)
    ≡ (if str_eq "ann" "ann" then none else get 5 "ann" one_kept)
get-clear_example = get-clear 5 "ann" "ann" one_kept
