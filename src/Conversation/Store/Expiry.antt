-- ===== src/Conversation/Store/Expiry.antt =====
-- crates/conversation-store/src/store.rs: when a conversation expires, and what the cleanup changes.
use signal_bot_tee.Common.{
  eq_iff, ◌≢◌, ℕ, ◌+◌, ◌≤◌, String, Bool, true, false, Option, none, some, [], ◌∷◌, ◌++◌, ◌≡◌, refl,
  ap, ltb, last_n, if◌then◌else◌, str_eq, arith,
}
use signal_bot_tee.Common.Table
use signal_bot_tee.Common.Table.{Table, IsKeyed, only_if, get-put, get-remove, get-retain}
use signal_bot_tee.Conversation.Types.{Conversation, new_message, append_message, push_message}
use signal_bot_tee.Conversation.Store.{
  write_back, ConversationEntry, ConversationStore, is_live, cleanup, conversation_of, get,
  entry_or_new, add_message, clear,
}
use signal_bot_tee.Conversation.Store.Window.{trim-messages}

only_if-twice :
    (now later : ℕ) (o : Option ConversationEntry)
    → now ≤ later
    → only_if (is_live later) (only_if (is_live now) o) ≡ only_if (is_live later) o
unfolding is_live
only_if-twice now later none h = refl
only_if-twice now later (some e) h = ground (arith, h)

-- In a table without double keys a round of the cleanup cannot be seen: from its time on, `get`
-- answers for every user what it answers without it.
pub get-cleanup :
    (now later : ℕ) (u : String) (s : ConversationStore)
    → IsKeyed s.conversations
    → now ≤ later
    → get later u (cleanup now s) ≡ get later u s
unfolding get cleanup
get-cleanup now later u s k h =
    rw (get-retain (is_live now) u s.conversations k)
      (ap conversation_of (only_if-twice now later (Table.get u s.conversations) h))

seen_if :
    (b : Bool) (later : ℕ) (e : ConversationEntry) (o : Option ConversationEntry)
    → conversation_of (only_if (is_live later) (if b then some e else o)) ≡ (
        if b
        then if ltb later e.expires_at then some e.conversation else none
        else conversation_of (only_if (is_live later) o))
unfolding is_live
seen_if true later e o = ground arith
seen_if false later e o = refl

seen_none :
    (b : Bool) (later : ℕ) (o : Option ConversationEntry)
    → conversation_of (only_if (is_live later) (if b then none else o))
      ≡ (if b then none else conversation_of (only_if (is_live later) o))
seen_none true later o = refl
seen_none false later o = refl

-- After `add_message` for `u`, `get` shows `u` the conversation that was returned until its time to live
-- is over and nothing from then on, and shows every other user what it showed before.
pub get-add_message :
    (now utc later : ℕ) (u v role content : String) (prompt : Option String) (s : ConversationStore)
    → get later v ((add_message now utc u role content prompt s).1) ≡ (
        if str_eq u v
        then if ltb later (now + s.ttl)
          then some ((add_message now utc u role content prompt s).0)
          else none
        else get later v s)
unfolding get add_message is_live
get-add_message now utc later u v role content prompt s =
    let c : Conversation = (add_message now utc u role content prompt s).0 in
    let e : ConversationEntry = record { conversation = c; expires_at = now + s.ttl } in
    rw (get-put u v e s.conversations) (seen_if (str_eq u v) later e (Table.get v s.conversations))

-- After `clear` nothing is shown of the user at any time, and other users are shown what they were.
pub get-clear :
    (later : ℕ) (u v : String) (s : ConversationStore)
    → get later v ((clear u s).1) ≡ (if str_eq u v then none else get later v s)
unfolding get clear
get-clear later u v s =
    rw (get-remove u v s.conversations) (seen_none (str_eq u v) later (Table.get v s.conversations))

-- A conversation that has expired and that no round of the cleanup has removed yet is not shown by
-- `get`, and when a message is added its old messages come back, as far as `max_messages` allows.
pub expired_revived :
    (now utc : ℕ) (u role content : String) (s : ConversationStore) (e : ConversationEntry)
    → Table.get u s.conversations ≡ some e
    → e.expires_at ≤ now
    → (get now u s ≡ none)
      × ((add_message now utc u role content none s).0.messages
          ≡ last_n s.max_messages (e.conversation.messages ++ new_message utc role content ∷ []))
unfolding get add_message entry_or_new is_live append_message push_message
expired_revived now utc u role content s e found expired = (
  rw found (ground (arith, expired)),
  rw found (trim-messages s.max_messages (append_message utc role content e.conversation)),
)

-- Writing back the conversation of one user shows every other user what was shown before.
pub get-write_back_other :
    (later now : ℕ) (u v : String) (c : Conversation) (s : ConversationStore)
    → u ≢ v
    → get later v ((write_back now u c s).1) ≡ get later v s
unfolding get
get-write_back_other later now u v c s apart =
    let other : str_eq u v ≡ false = ground (arith, eq_iff u v, apart) in
    let e : ConversationEntry = record { conversation = c; expires_at = now + s.ttl } in
    rw (get-put u v e s.conversations, other) refl
