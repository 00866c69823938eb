-- ===== src/Dispatch/Commands.antt =====
-- crates/signal-bot/src/main.rs: what a command may change, and what a message to the model may.
use mathlib.Core.Path.{subst}
use signal_bot_tee.Common.{
  true, false, some, ◌≡◌, ◌⊎◌, ◌∙◌, inl, inr, refl, sym, ap, arith, Bool-cases,
}
use signal_bot_tee.Common.Text.{has_prefix}
use signal_bot_tee.Conversation.Store
use signal_bot_tee.Chat.Types.{BotMessage, reply_target}
use signal_bot_tee.Dispatch.{
  HandlerKind, chat, verify, clear, help, models, summary, negotiate_kind, offer_kind, deals_kind,
  withdraw_kind, balance, deposit, matches, Running, Loop, store_group_message, execute_handler,
  receive,
}
use signal_bot_tee.Dispatch.Received.{IsSameData, IsHandled, receive-IsReceived, matches-is_command}

module _ {W F : Type 0} (l : Loop W F) (m : BotMessage) where
  -- What a message that begins with `!` may change: nothing of the credits, and of the conversations
  -- at most that its own is cleared
  abbrev pub IsFree : Running W F → Running W F → Type 0
  IsFree s t =
      (t.bot.credits.store_data ≡ s.bot.credits.store_data)
      × ((t.bot.conversations ≡ s.bot.conversations)
          ⊎ (t.bot.conversations ≡ (Store.clear (reply_target m) s.bot.conversations).1))

  command-IsFree :
      (kind : HandlerKind) (s t : Running W F)
      → has_prefix "!" m.text ≡ true
      → matches m kind ≡ true
      → execute_handler l m kind s ≡ some t
      → IsFree s t
  unfolding execute_handler matches
  command-IsFree chat s t is_command h e = absurd (ground (arith, is_command, h))
  command-IsFree clear s t is_command h e = (ground (arith, e), inr (ground (arith, e)))
  command-IsFree negotiate_kind s t is_command h e = (ground (arith, e), inl (ground (arith, e)))
  command-IsFree offer_kind s t is_command h e = (ground (arith, e), inl (ground (arith, e)))
  command-IsFree deals_kind s t is_command h e = (ground (arith, e), inl (ground (arith, e)))
  command-IsFree withdraw_kind s t is_command h e = (ground (arith, e), inl (ground (arith, e)))
  command-IsFree verify s t is_command h e = (ground (arith, e), inl (ground (arith, e)))
  command-IsFree help s t is_command h e = (ground (arith, e), inl (ground (arith, e)))
  command-IsFree models s t is_command h e = (ground (arith, e), inl (ground (arith, e)))
  command-IsFree summary s t is_command h e = (ground (arith, e), inl (ground (arith, e)))
  command-IsFree balance s t is_command h e = (ground (arith, e), inl (ground (arith, e)))
  command-IsFree deposit s t is_command h e = (ground (arith, e), inl (ground (arith, e)))

  command_stored :
      (s t : Running W F)
      → has_prefix "!" m.text ≡ true
      → store_group_message l m s ≡ some t
      → t ≡ s
  unfolding store_group_message
  command_stored s t is_command e = elim (Bool-cases m.is_group) [
    | inl group ↦ ground (arith, group, is_command, e)
    | inr single ↦ ground (arith, single, e)
  ]

  pub stored_negotiations :
      (s t : Running W F) → store_group_message l m s ≡ some t → t.negotiations ≡ s.negotiations
  unfolding store_group_message
  stored_negotiations s t e = ground (arith, e)

  pub chat_negotiations :
      (s t : Running W F) → execute_handler l m chat s ≡ some t → t.negotiations ≡ s.negotiations
  unfolding execute_handler
  chat_negotiations s t e = ground (arith, e)

  IsFree-around :
      (s s' u t : Running W F) → IsSameData s s' → IsFree s' u → IsSameData u t → IsFree s t
  IsFree-around s s' u t first (credits, inl kept) last =
      (last.0 ∙ credits ∙ first.0, inl (last.1 ∙ kept ∙ first.1))
  IsFree-around s s' u t first (credits, inr cleared) last = (
    last.0 ∙ credits ∙ first.0,
    inr (last.1 ∙ cleared ∙ ap (λ c. (Store.clear (reply_target m) c).1) first.1),
  )

  handled-IsFree :
      (s s' t : Running W F)
      → has_prefix "!" m.text ≡ true
      → IsSameData s s'
      → IsHandled l m s' t
      → IsFree s t
  handled-IsFree s s' t is_command first (inl last) =
      IsFree-around s s' s' t first (refl, inl refl) last
  handled-IsFree s s' t is_command first (inr (kind, u, h, done, last)) =
      IsFree-around s s' u t first (command-IsFree kind s' u is_command h done) last

  -- Only the chat answers a message that is no command.
  plain_negotiations :
      (s' t : Running W F)
      → has_prefix "!" m.text ≡ false
      → IsHandled l m s' t
      → t.negotiations ≡ s'.negotiations
  plain_negotiations s' t plain (inl last) = last.2
  plain_negotiations s' t plain (inr (kind, u, h, done, last)) =
      elim (matches-is_command m kind h) [
        | inl is_chat ↦
            last.2
            ∙ chat_negotiations s' u (ap (λ k. execute_handler l m k s') (sym is_chat) ∙ done)
        | inr command ↦ absurd (ground (arith, plain, command))
      ]

  -- A message that begins with `!` is never charged and is never added to a conversation: the data of
  -- the credit store stay as they were, and so do the conversations, or the one that is replied to is
  -- cleared. Any other message changes no negotiation. (Where nothing panics.)
  pub receive_separates :
      (s t : Running W F)
      → receive l m s ≡ some t
      → ((has_prefix "!" m.text ≡ true) × IsFree s t)
        ⊎ ((has_prefix "!" m.text ≡ false) × (t.negotiations ≡ s.negotiations))
  receive_separates s t e =
      let (stored, s', kept, same, rest) = receive-IsReceived l m s t e in
      elim (Bool-cases (has_prefix "!" m.text)) [
        | inl is_command ↦ inl (
          is_command,
          subst (λ x. IsFree x t) (command_stored s stored is_command kept)
              (handled-IsFree stored s' t is_command same rest),
        )
        | inr plain ↦
            inr (
              plain,
              plain_negotiations s' t plain rest ∙ same.2 ∙ stored_negotiations s stored kept,
            )
      ]
