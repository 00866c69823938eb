-- ===== src/Dispatch.antt =====
-- crates/signal-bot/src/main.rs: the loop over the messages, and crates/signal-bot/src/commands/mod.rs,
-- which tells whose message it is. `W` is the state of all that the bot calls.
pub mod Groups
pub mod Received
pub mod Commands
pub mod Sealing
use signal_bot_tee.Common.{
  ℕ, String, text_append, str_eq, Bool, true, false, not, ◌&&◌, ◌||◌, Option, none, some, List, [],
  ◌∷◌, ◌++◌, Result, ok, err, if◌then◌else◌, min,
}
use signal_bot_tee.Common.Text.{has_prefix, contains_text, is_cut, slice}
use signal_bot_tee.Common.Table
use signal_bot_tee.Common.Table.{Table}
use signal_bot_tee.Conversation.Store
use signal_bot_tee.Conversation.Store.{ConversationStore}
use signal_bot_tee.Credits.Store.Platform.{Platform}
use signal_bot_tee.Chat.Types.{BotMessage, Services, reply_target}
use signal_bot_tee.Chat.Handler.{ChatHandler, Bot, execute}
use signal_bot_tee.Attestation.Verify.{parse_challenge}
use signal_bot_tee.Attestation.Reply.{log_panics}
use signal_bot_tee.Negotiation.Types.{Float}
use signal_bot_tee.Negotiation.Store.{NegotiationStore}
use signal_bot_tee.Negotiation.Commands.{negotiate, offer, deals, withdraw_command}

-- The handlers, in the order of the list in `main`
pub data HandlerKind : Type 0 where
  chat verify clear help models summary negotiate_kind offer_kind deals_kind withdraw_kind balance
        deposit :
      HandlerKind

-- `CommandHandler::trigger`, with the text that each handler gives in its file of commands/
abbrev pub trigger : HandlerKind → Option String
trigger chat = none
trigger verify = some "!verify"
trigger clear = some "!clear"
trigger help = some "!help"
trigger models = some "!models"
trigger summary = some "!summary"
trigger negotiate_kind = some "!negotiate"
trigger offer_kind = some "!offer"
trigger deals_kind = some "!deals"
trigger withdraw_kind = some "!withdraw"
trigger balance = some "!balance"
trigger deposit = some "!deposit"

-- `CommandHandler::matches`; only the chat handler has no trigger, and it is the default one.
unfoldable pub matches : BotMessage → HandlerKind → Bool
unfolding has_prefix
matches m kind = elim (trigger kind) [
  | none ↦ not (has_prefix "!" m.text)
  | some t ↦ has_prefix t m.text
]

unfoldable pub handlers : Bool → List HandlerKind
handlers payments =
    (chat ∷ verify ∷ clear ∷ help ∷ models ∷ summary ∷ negotiate_kind ∷ offer_kind ∷ deals_kind
      ∷ withdraw_kind ∷ [])
    ++ (if payments then balance ∷ deposit ∷ [] else [])

-- `handlers.iter().find(|h| h.matches(&message))`
unfoldable pub find_handler : BotMessage → List HandlerKind → Option HandlerKind
unfolding matches
find_handler m [] = none
find_handler m (kind ∷ kinds) = if matches m kind then some kind else find_handler m kinds

pub record Running (W F : Type 0) : Type 0 where
  pub bot : Bot W
  pub negotiations : NegotiationStore F

-- The translation of the configured groups, which writes to Signal only
pub record TranslationInterceptor (W : Type 0) : Type 0 where
  pub groups : Table (String × String)
  pub translate : BotMessage → String × String → W → W

-- What the loop calls besides: the handlers that keep no state, and the reply
pub record Loop (W F : Type 0) : Type 0 where
  pub storage : Platform W
  pub services : Services W
  pub chat_handler : ChatHandler
  pub float : Float F
  pub payments_enabled : Bool
  pub translation : Option (TranslationInterceptor W)
  pub to_lowercase : String → String
  pub answer : HandlerKind → BotMessage → W → W
  pub reply : BotMessage → W → W

module _ {W F : Type 0} (l : Loop W F) (m : BotMessage) where
  abbrev pub is_command : Bool
  is_command = has_prefix "!" m.text

  abbrev pub world_of : Running W F → W
  world_of s = s.bot.credits.world

  abbrev pub with_world : W → Running W F → Running W F
  with_world w s = record s { bot = record s.bot { credits = record s.bot.credits { world = w } } }

  abbrev pub with_negotiations : NegotiationStore F → Running W F → Running W F
  with_negotiations n s = record s { negotiations = n }

  abbrev pub with_conversations : ConversationStore → Running W F → Running W F
  with_conversations c s = record s { bot = record s.bot { conversations = c } }

  -- "Store all group messages for !summary": `none` is the panic of the cut of the source.
  unfoldable pub store_group_message : Running W F → Option (Running W F)
  unfolding is_cut
  store_group_message s =
      if m.is_group && not is_command
      then (if is_cut 8 m.source
          then none
          else some (
              with_conversations
                (Store.add_message (l.services.now (world_of s)) (l.services.utc (world_of s))
                  (reply_target m) "user"
                  (text_append (slice m.source 0 8) (text_append ": " m.text)) none
                  s.bot.conversations).1
                s))
      else some s

  -- The languages of the message's group, if it is translated at all
  unfoldable pub group_pair : TranslationInterceptor W → Option (String × String)
  group_pair i =
      if m.is_group && not is_command
      then (elim m.group_id [ none ↦ none | some group ↦ Table.get group i.groups ])
      else none

  -- `TranslationInterceptor::try_translate`; the bot's own messages are left as they are.
  unfoldable pub try_translate : TranslationInterceptor W → Running W F → Bool × Running W F
  unfolding group_pair
  try_translate i s = elim (group_pair i) [
    | none ↦ (false, s)
    | some pair ↦
        if str_eq m.source m.receiving_account
        then (true, s)
        else (true, with_world (i.translate m pair (world_of s)) s)
  ]

  unfoldable pub is_mentioned : Bool
  unfolding contains_text
  is_mentioned =
      contains_text "@bot" (l.to_lowercase m.text)
      || contains_text m.receiving_account (l.to_lowercase m.text)

  -- Whether the loop goes on to the next message after the translation
  unfoldable pub intercept : Option (TranslationInterceptor W) → Running W F → Bool × Running W F
  unfolding try_translate is_mentioned
  intercept none s = (false, s)
  intercept (some i) s =
      let (was_translation_group, s') = try_translate i s in
      (was_translation_group && not is_command && not is_mentioned, s')

  -- `handler.execute`; `none` is a panic. A handler that keeps no state is `answer`.
  unfoldable pub execute_handler : HandlerKind → Running W F → Option (Running W F)
  unfolding execute negotiate offer deals withdraw_command
  execute_handler chat s =
      some (record s { bot = (execute l.storage l.services l.chat_handler m s.bot).1 })
  execute_handler clear s =
      some (with_conversations (Store.clear (reply_target m) s.bot.conversations).1 s)
  execute_handler negotiate_kind s =
      let (r, n) = negotiate (l.services.utc (world_of s)) m s.negotiations in
      elim r [ none ↦ none | some answered ↦ some (with_negotiations n s) ]
  execute_handler offer_kind s =
      some (with_negotiations (offer l.float (l.services.utc (world_of s)) m s.negotiations).1 s)
  execute_handler deals_kind s = elim (deals m s.negotiations) [ none ↦ none | some lines ↦ some s ]
  execute_handler withdraw_kind s =
      some (with_negotiations (withdraw_command (l.services.utc (world_of s)) m s.negotiations).1 s)
  execute_handler verify s =
      if log_panics (parse_challenge m.text)
      then none
      else some (with_world (l.answer verify m (world_of s)) s)
  execute_handler help s = some (with_world (l.answer help m (world_of s)) s)
  execute_handler models s = some (with_world (l.answer models m (world_of s)) s)
  execute_handler summary s = some (with_world (l.answer summary m (world_of s)) s)
  execute_handler balance s = some (with_world (l.answer balance m (world_of s)) s)
  execute_handler deposit s = some (with_world (l.answer deposit m (world_of s)) s)

  abbrev pub and_reply : Option (Running W F) → Option (Running W F)
  and_reply none = none
  and_reply (some s) = some (with_world (l.reply m (world_of s)) s)

  abbrev pub handle_by : Option HandlerKind → Running W F → Option (Running W F)
  handle_by none s = some s
  handle_by (some kind) s = and_reply (execute_handler kind s)

  abbrev pub after_intercept : Bool × Running W F → Option (Running W F)
  after_intercept (true, s) = some s
  after_intercept (false, s) = handle_by (find_handler m (handlers l.payments_enabled)) s

  abbrev pub after_storing : Option (Running W F) → Option (Running W F)
  after_storing none = none
  after_storing (some stored) = after_intercept (intercept l.translation stored)

  -- One message
  unfoldable pub receive : Running W F → Option (Running W F)
  unfolding store_group_message intercept execute_handler find_handler handlers
  receive s = after_storing (store_group_message s)

-- The loop, over the messages that arrive
unfoldable pub receive_all :
    {W F : Type 0} → Loop W F → List BotMessage → Running W F → Option (Running W F)
unfolding receive
receive_all l [] s = some s
receive_all l (m ∷ ms) s = elim (receive l m s) [ none ↦ none | some t ↦ receive_all l ms t ]
