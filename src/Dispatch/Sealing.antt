-- ===== src/Dispatch/Sealing.antt =====
-- crates/signal-bot/src/main.rs: the sealed negotiations under whatever the running bot receives.
use mathlib.Core.Path.{subst}
use signal_bot_tee.Common.{ℕ, some, List, [], ◌∷◌, ◌≡◌, ◌∙◌, inl, inr, sym, arith, Option-cases}
use signal_bot_tee.Common.IdTable
use signal_bot_tee.Common.IdTable.{get-All}
use signal_bot_tee.Chat.Types.{BotMessage}
use signal_bot_tee.Negotiation.Types.{Negotiation}
use signal_bot_tee.Negotiation.Store.{NegotiationStore, new_store}
use signal_bot_tee.Negotiation.Store.Sealed.{IsSealed, AllSealed}
use signal_bot_tee.Negotiation.Commands.{negotiate, offer, withdraw_command}
use signal_bot_tee.Negotiation.Commands.Sealing.{
  negotiate-IsSealed, offer-IsSealed, withdraw_command-IsSealed,
}
use signal_bot_tee.Dispatch.{
  HandlerKind, chat, verify, clear, help, models, summary, negotiate_kind, offer_kind, deals_kind,
  withdraw_kind, balance, deposit, Running, Loop, execute_handler, receive, receive_all,
}
use signal_bot_tee.Dispatch.Received.{IsHandled, receive-IsReceived}
use signal_bot_tee.Dispatch.Commands.{stored_negotiations}

module _ {W F : Type 0} (l : Loop W F) where
  abbrev HoldsSealed : Running W F → Type 0
  HoldsSealed s = AllSealed l.float s.negotiations

  module _ (m : BotMessage) (s t : Running W F) (sealed : HoldsSealed s) where
    kept_sealed : t.negotiations ≡ s.negotiations → HoldsSealed t
    kept_sealed same = subst (AllSealed l.float) (sym same) sealed

    made_sealed :
        (n : NegotiationStore F) → t.negotiations ≡ n → AllSealed l.float n → HoldsSealed t
    made_sealed n same made = subst (AllSealed l.float) (sym same) made

    execute_handler-IsSealed :
        (kind : HandlerKind) → execute_handler l m kind s ≡ some t → HoldsSealed t
    unfolding execute_handler
    execute_handler-IsSealed negotiate_kind e =
        made_sealed (negotiate (l.services.utc s.bot.credits.world) m s.negotiations).1
          (ground (arith, e))
          (negotiate-IsSealed l.float (l.services.utc s.bot.credits.world) m s.negotiations sealed)
    execute_handler-IsSealed offer_kind e =
        made_sealed (offer l.float (l.services.utc s.bot.credits.world) m s.negotiations).1
          (ground (arith, e))
          (offer-IsSealed l.float (l.services.utc s.bot.credits.world) m s.negotiations sealed)
    execute_handler-IsSealed withdraw_kind e =
        made_sealed (withdraw_command (l.services.utc s.bot.credits.world) m s.negotiations).1
          (ground (arith, e))
          (withdraw_command-IsSealed l.float (l.services.utc s.bot.credits.world) m s.negotiations
            sealed)
    execute_handler-IsSealed chat e = kept_sealed (ground (arith, e))
    execute_handler-IsSealed verify e = kept_sealed (ground (arith, e))
    execute_handler-IsSealed clear e = kept_sealed (ground (arith, e))
    execute_handler-IsSealed help e = kept_sealed (ground (arith, e))
    execute_handler-IsSealed models e = kept_sealed (ground (arith, e))
    execute_handler-IsSealed summary e = kept_sealed (ground (arith, e))
    execute_handler-IsSealed deals_kind e = kept_sealed (ground (arith, e))
    execute_handler-IsSealed balance e = kept_sealed (ground (arith, e))
    execute_handler-IsSealed deposit e = kept_sealed (ground (arith, e))

  handled-IsSealed :
      (m : BotMessage) (s t : Running W F) → HoldsSealed s → IsHandled l m s t → HoldsSealed t
  handled-IsSealed m s t sealed (inl last) = kept_sealed m s t sealed last.2
  handled-IsSealed m s t sealed (inr (kind, u, h, done, last)) =
      kept_sealed m u t (execute_handler-IsSealed m s u sealed kind done) last.2

  receive-IsSealed :
      (m : BotMessage) (s t : Running W F) → HoldsSealed s → receive l m s ≡ some t → HoldsSealed t
  receive-IsSealed m s t sealed e =
      let (stored, s', kept, same, rest) = receive-IsReceived l m s t e in
      handled-IsSealed m s' t
        (kept_sealed m s s' sealed (same.2 ∙ stored_negotiations l m s stored kept)) rest

  receive_all_from-IsSealed :
      (ms : List BotMessage) (s t : Running W F)
      → HoldsSealed s
      → receive_all l ms s ≡ some t
      → HoldsSealed t
  unfolding receive_all
  receive_all_from-IsSealed [] s t sealed e =
      let same : s.negotiations ≡ t.negotiations = ground (arith, e) in
      subst (AllSealed l.float) same sealed
  receive_all_from-IsSealed (m ∷ ms) s t sealed e = elim (Option-cases (receive l m s)) [
    | inl panicked ↦ absurd (ground (arith, panicked, e))
    | inr (u, received) ↦
        receive_all_from-IsSealed ms u t (receive-IsSealed m s u sealed received)
          (ground (arith, received, e))
  ]

  -- Whatever messages the bot has received since its start with an empty store, from whomever and in any
  -- order: a negotiation that waits holds at most one offer and no price; one with a deal holds both
  -- offers, the buyer's at least the seller's, and their midpoint as its price; one that ended in no
  -- deal, or was cancelled, holds no offer and no price.
  pub receive_all-IsSealed :
      (ms : List BotMessage) (s t : Running W F) (id : ℕ) {n : Negotiation F}
      → s.negotiations ≡ new_store
      → receive_all l ms s ≡ some t
      → IdTable.get id t.negotiations.negotiations ≡ some n
      → IsSealed l.float n
  receive_all-IsSealed ms s t id started e found =
      get-All (IsSealed l.float) id t.negotiations.negotiations
        (receive_all_from-IsSealed ms s t (subst (AllSealed l.float) (sym started) tt) e) found
