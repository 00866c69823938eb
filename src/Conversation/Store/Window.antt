-- ===== src/Conversation/Store/Window.antt =====
-- crates/conversation-store/src/store.rs: what a conversation shows of the messages sent to it. The
-- store is compared with the abstract view of Store/Events, which forgets nothing but at `clear` and
-- at a round of the cleanup.
use signal_bot_tee.Common.{
  length-last_n, ◌≤◌, map, unwrap_or, ℕ, ◌+◌, ◌-◌, String, Bool, true, false, Option, none, some,
  List, [], ◌∷◌, ◌++◌, ◌≡◌, refl, sym, ap, ◌∙◌, ltb, length, drop, last_n, drop-nil, last_n-append,
  Bool-cases, if◌then◌else◌, str_eq, eq_iff, arith, inl, inr,
}
use signal_bot_tee.Common.Table
use signal_bot_tee.Common.Table.{
  Table, IsKeyed, only_if, get-put, get-remove, get-retain, put-IsKeyed, remove-IsKeyed,
  retain-IsKeyed,
}
use signal_bot_tee.Conversation.Types.{
  StoredMessage, Conversation, new_message, with_tool_calls, tool_result, new_conversation,
  push_message, append_message, trim,
}
use signal_bot_tee.Conversation.Store.{
  ConversationEntry, ConversationStore, new_store, is_live, conversation_of, get, entry_or_new,
  set_prompt, write_back, to_openai_messages, to_openai, messages_of,
}
use signal_bot_tee.Conversation.Store.Events.{
  Event, say, call_tools, report_tool, forget, sweep, apply, apply_all, History, log_of, extend,
  record_event, record_all, held, window,
}

pub trim-messages : (n : ℕ) (c : Conversation) → (trim n c).messages ≡ last_n n c.messages
unfolding trim
trim-messages n c = elim (Bool-cases (ltb n (length c.messages))) [
  | inl h ↦ ground (arith, h)
  | inr h ↦
      let z : length c.messages - n ≡ 0 = ground (arith, h) in
      rw h (ap (λ k. drop k c.messages) (sym z))
]

-- The store and the histories of a user agree.
abbrev pub Shows : String → ConversationStore → History → Type 0
Shows u s h = held (Table.get u s.conversations) ≡ window s.max_messages h

log_of-window : (n : ℕ) (h : History) → log_of (window n h) ≡ last_n n (log_of h)
log_of-window n none = sym (drop-nil (0 - n))
log_of-window n (some h) = refl

-- Writing back a trimmed conversation shows the history that is one message longer.
write_back-Shows :
    (u v : String) (now : ℕ) (m : StoredMessage) (c : Conversation) (s : ConversationStore)
    (h : History)
    → Shows u s h
    → (v ≡ u → c.messages ≡ last_n s.max_messages (log_of (window s.max_messages h) ++ m ∷ []))
    → Shows u ((write_back now v c s).1) (if str_eq v u then extend (now + s.ttl) m h else h)
write_back-Shows u v now m c s h shown pushed =
    let n : ℕ = s.max_messages in
    let e : ConversationEntry = record { conversation = c; expires_at = now + s.ttl } in
    elim (Bool-cases (str_eq v u)) [
      | inl same ↦
          let longer : c.messages ≡ last_n n (log_of h ++ m ∷ []) =
            pushed ((eq_iff v u).0 same)
            ∙ ap (λ ms. last_n n (ms ++ m ∷ [])) (log_of-window n h)
            ∙ last_n-append n (log_of h) (m ∷ []) in
          rw (get-put v u e s.conversations, same) (ap (λ ms. some (now + s.ttl, ms)) longer)
      | inr other ↦ rw (get-put v u e s.conversations, other) shown
    ]

log_of-held :
    (o : Option ConversationEntry) (fresh : ConversationEntry)
    → fresh.conversation.messages ≡ []
    → (unwrap_or o fresh).conversation.messages ≡ log_of (held o)
log_of-held none fresh empty = empty
log_of-held (some e) fresh empty = refl

entry_or_new-messages :
    (now utc : ℕ) (u : String) (prompt : Option String) (s : ConversationStore) (h : History)
    → Shows u s h
    → (entry_or_new now utc u prompt s).conversation.messages ≡ log_of (window s.max_messages h)
unfolding entry_or_new new_conversation Table.get
entry_or_new-messages now utc u prompt s h shown =
    log_of-held (Table.get u s.conversations)
      (entry_or_new now utc u prompt (record s { conversations = [] })) refl
    ∙ ap log_of shown

set_prompt-messages :
    (prompt : Option String) (c : Conversation) → (set_prompt prompt c).messages ≡ c.messages
set_prompt-messages none c = refl
set_prompt-messages (some p) c = refl

-- A message pushed on what the user has, and trimmed, is the window of the longer history.
push-Shows :
    (u v : String) (now utc : ℕ) (m : StoredMessage) (start prompt : Option String)
    (s : ConversationStore) (h : History)
    → Shows u s h
    → Shows u
        ((write_back now v
          (trim s.max_messages
            (push_message utc m (set_prompt prompt (entry_or_new now utc v start s).conversation)))
          s).1)
        (if str_eq v u then extend (now + s.ttl) m h else h)
unfolding push_message
push-Shows u v now utc m start prompt s h shown =
    let n : ℕ = s.max_messages in
    let c : Conversation = set_prompt prompt (entry_or_new now utc v start s).conversation in
    write_back-Shows u v now m (trim n (push_message utc m c)) s h shown (λ same.
      trim-messages n (push_message utc m c)
      ∙ ap (λ ms. last_n n (ms ++ m ∷ []))
          (set_prompt-messages prompt (entry_or_new now utc v start s).conversation
            ∙ entry_or_new-messages now utc v start s h (rw same shown)))

held-only_if :
    (n now : ℕ) (o : Option ConversationEntry) (h : History)
    → held o ≡ window n h
    → held (only_if (is_live now) o) ≡ window n (only_if (λ e. ltb now e.0) h)
unfolding is_live
held-only_if n now none none shown = refl
held-only_if n now none (some h) shown = absurd (ground (arith, shown))
held-only_if n now (some e) none shown = absurd (ground (arith, shown))
held-only_if n now (some e) (some h) shown = ground (arith, shown)

held-forget :
    (b : Bool) (n : ℕ) (o : Option ConversationEntry) (h : History)
    → held o ≡ window n h
    → held (if b then none else o) ≡ window n (if b then none else h)
held-forget true n o h shown = refl
held-forget false n o h shown = shown

event-Shows :
    (u : String) (e : Event) (s : ConversationStore) (h : History)
    → IsKeyed s.conversations
    → Shows u s h
    → Shows u (apply e s) (record_event s.ttl u e h)
unfolding apply record_event append_message
event-Shows u (say now utc v role content prompt) s h k shown =
    push-Shows u v now utc (new_message utc role content) prompt prompt s h shown
event-Shows u (call_tools now utc v content calls) s h k shown =
    push-Shows u v now utc (with_tool_calls utc "assistant" content calls) none none s h shown
event-Shows u (report_tool now utc v id content) s h k shown =
    push-Shows u v now utc (tool_result utc id content) none none s h shown
event-Shows u (forget v) s h k shown =
    rw (get-remove v u s.conversations) (held-forget (str_eq v u) s.max_messages _ h shown)
event-Shows u (sweep now) s h k shown =
    rw (get-retain (is_live now) u s.conversations k)
      (held-only_if s.max_messages now (Table.get u s.conversations) h shown)

apply-settings :
    (e : Event) (s : ConversationStore)
    → ((apply e s).max_messages ≡ s.max_messages) × ((apply e s).ttl ≡ s.ttl)
unfolding apply
apply-settings (say now utc v role content prompt) s = (refl, refl)
apply-settings (call_tools now utc v content calls) s = (refl, refl)
apply-settings (report_tool now utc v id content) s = (refl, refl)
apply-settings (forget v) s = (refl, refl)
apply-settings (sweep now) s = (refl, refl)

pub apply-IsKeyed :
    (e : Event) (s : ConversationStore)
    → IsKeyed s.conversations
    → IsKeyed (apply e s).conversations
unfolding apply
apply-IsKeyed (say now utc v role content prompt) s k = put-IsKeyed v _ s.conversations k
apply-IsKeyed (call_tools now utc v content calls) s k = put-IsKeyed v _ s.conversations k
apply-IsKeyed (report_tool now utc v id content) s k = put-IsKeyed v _ s.conversations k
apply-IsKeyed (forget v) s k = remove-IsKeyed v s.conversations k
apply-IsKeyed (sweep now) s k = retain-IsKeyed (is_live now) s.conversations k

run-Shows :
    (u : String) (es : List Event) (s : ConversationStore) (h : History)
    → IsKeyed s.conversations
    → Shows u s h
    → held (Table.get u (apply_all es s).conversations)
      ≡ window s.max_messages (record_all s.ttl u es h)
unfolding apply_all record_all
run-Shows u [] s h k shown = shown
run-Shows u (e ∷ es) s h k shown =
    let settings = apply-settings e s in
    let h2 : History = record_event s.ttl u e h in
    run-Shows u es (apply e s) h2 (apply-IsKeyed e s k) (event-Shows u e s h k shown)
    ∙ ap (λ n. window n (record_all (apply e s).ttl u es h2)) settings.0
    ∙ ap (λ t. window s.max_messages (record_all t u es h2)) settings.1

log_of-messages : (o : Option ConversationEntry) → messages_of (conversation_of o) ≡ log_of (held o)
log_of-messages none = refl
log_of-messages (some e) = refl

messages_of-live :
    (n now : ℕ) (o : Option ConversationEntry) (h : History)
    → held o ≡ window n h
    → messages_of (conversation_of (only_if (is_live now) o))
      ≡ last_n n (log_of (only_if (λ e. ltb now e.0) h))
messages_of-live n now o h shown =
    log_of-messages (only_if (is_live now) o)
    ∙ ap log_of (held-only_if n now o h shown)
    ∙ log_of-window n (only_if (λ e. ltb now e.0) h)

-- Whatever was sent to a new store, by whom, and whatever was cleared or cleaned up: the messages
-- that `get` shows of a user are the last `max_messages` of the user's unbounded history, if that
-- has not expired, and none if it has.
pub get-last_n :
    (max_messages ttl now : ℕ) (u : String) (es : List Event)
    → messages_of (get now u (apply_all es (new_store max_messages ttl)))
      ≡ last_n max_messages (log_of (only_if (λ e. ltb now e.0) (record_all ttl u es none)))
unfolding get new_store Table.get
get-last_n n ttl now u es =
    messages_of-live n now (Table.get u (apply_all es (new_store n ttl)).conversations)
      (record_all ttl u es none) (run-Shows u es (new_store n ttl) none tt refl)

length-map-to_openai : (ms : List StoredMessage) → length (map to_openai ms) ≡ length ms
length-map-to_openai [] = refl
length-map-to_openai (m ∷ ms) = omega (arith, length-map-to_openai ms)

-- What is sent to the model under a system prompt, whatever the store has been through: the prompt
-- first, then the last `max_messages` of the user's history if it has not expired, in order, and
-- never more than `max_messages + 1` messages.
pub to_openai_messages-last_n :
    (max_messages ttl now : ℕ) (u prompt : String) (es : List Event)
    → let sent =
        to_openai_messages now u (some prompt) (apply_all es (new_store max_messages ttl)) in
      let log = log_of (only_if (λ e. ltb now e.0) (record_all ttl u es none)) in
      (sent
        ≡ record { role = "system"; content = some prompt; tool_calls = none; tool_call_id = none }
          ∷ map to_openai (last_n max_messages log))
      × (length sent ≤ max_messages + 1)
unfolding to_openai_messages
to_openai_messages-last_n n ttl now u prompt es =
    let shown = get-last_n n ttl now u es in
    let log : List StoredMessage = log_of (only_if (λ e. ltb now e.0) (record_all ttl u es none)) in
    rw shown (refl, omega (arith, length-map-to_openai (last_n n log), length-last_n n log))
