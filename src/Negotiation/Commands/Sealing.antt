-- ===== src/Negotiation/Commands/Sealing.antt =====
-- crates/signal-bot/src/commands/conditional_recall.rs: what the commands leave in the store.
use signal_bot_tee.Common.{
  ℕ, String, Bool, true, false, not, Option, none, some, ◌≡◌, inl, inr, refl, str_eq, Bool-cases,
  Option-cases, if◌then◌else◌,
}
use signal_bot_tee.Common.Text.{has_prefix}
use signal_bot_tee.Common.Trim.{trim, trim_start_matches, split_space, remove_char}
use signal_bot_tee.Common.Numeral.{parse_u64}
use signal_bot_tee.Chat.Types.{BotMessage}
use signal_bot_tee.Negotiation.Types.{Float}
use signal_bot_tee.Negotiation.Store.{NegotiationStore}
use signal_bot_tee.Negotiation.Store.Sealed.{
  AllSealed, create-IsSealed, submit_offer-IsSealed, withdraw-IsSealed,
}
use signal_bot_tee.Negotiation.Commands.{
  NegotiateReply, negotiate_target, negotiate, offer, withdraw_command, sender_of,
}

module _ {F : Type 0} (f : Float F) where
  pub negotiate-IsSealed :
      (now : ℕ) (m : BotMessage) (s : NegotiationStore F)
      → AllSealed f s
      → AllSealed f (negotiate now m s).1
  unfolding negotiate
  negotiate-IsSealed now m s sealed = elim (Option-cases (negotiate_target m.text)) [
    | inl usage ↦ rw (usage, negotiate) sealed
    | inr ((counterparty, description), target) ↦
        rw (target, negotiate)
          (branch (not (has_prefix "+" counterparty)) (str_eq counterparty m.source) _ _ _
            (create-IsSealed f now m.source counterparty description s sealed))
  ]
    where
      branch :
          (p q : Bool) (a b : Option NegotiateReply)
          (r : Option NegotiateReply × NegotiationStore F)
          → AllSealed f r.1
          → AllSealed f (if p then (a, s) else if q then (b, s) else r).1
      branch true q a b r made = sealed
      branch false true a b r made = sealed
      branch false false a b r made = made

  pub offer-IsSealed :
      (now : ℕ) (m : BotMessage) (s : NegotiationStore F)
      → AllSealed f s
      → AllSealed f (offer f now m s).1
  unfolding offer
  offer-IsSealed now m s sealed =
      with_parts (split_space (trim (trim_start_matches "!offer" m.text))) refl
    where
      with_parts :
          (parts : String × Option String)
          → split_space (trim (trim_start_matches "!offer" m.text)) ≡ parts
          → AllSealed f (offer f now m s).1
      with_parts (first, none) e = rw (e, offer) sealed
      with_parts (first, some text) e = elim (Option-cases (parse_u64 first)) [
        | inl bad ↦ rw (e, e, bad, offer) sealed
        | inr (id, good) ↦
            elim (Option-cases (f.parse (remove_char b',' (trim_start_matches "$" text)))) [
              | inl bad ↦ rw (e, e, good, bad, offer) sealed
              | inr (amount, read) ↦ elim (Bool-cases (f.is_negative amount)) [
                | inl below ↦ rw (e, e, good, read, below, offer) sealed
                | inr above ↦
                    rw (e, e, good, read, above, offer)
                      (submit_offer-IsSealed f now id (sender_of m) amount s sealed)
              ]
            ]
      ]

  pub withdraw_command-IsSealed :
      (now : ℕ) (m : BotMessage) (s : NegotiationStore F)
      → AllSealed f s
      → AllSealed f (withdraw_command now m s).1
  unfolding withdraw_command
  withdraw_command-IsSealed now m s sealed =
      elim (Option-cases (parse_u64 (trim (trim_start_matches "!withdraw" m.text)))) [
        | inl bad ↦ rw (bad, withdraw_command) sealed
        | inr (id, good) ↦
            rw (good, withdraw_command) (withdraw-IsSealed f now id (sender_of m) s sealed)
      ]
