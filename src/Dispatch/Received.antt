-- ===== src/Dispatch/Received.antt =====
-- crates/signal-bot/src/main.rs: what one message does to the data, whatever handler answers it.
use mathlib.Core.Path.{subst}
use Prim.Native.Char.{Char}
use signal_bot_tee.Common.{
  String, Bool, true, false, Option, none, some, List, [], ◌∷◌, ◌≡◌, ◌⊎◌, ◌∙◌, inl, inr, refl, sym,
  ap, arith, Bool-cases, Option-cases,
}
use signal_bot_tee.Common.Text.{has_prefix}
use signal_bot_tee.Chat.Types.{BotMessage}
use signal_bot_tee.Dispatch.{
  HandlerKind, chat, verify, clear, help, models, summary, negotiate_kind, offer_kind, deals_kind,
  withdraw_kind, balance, deposit, matches, find_handler, handlers, Running, Loop,
  TranslationInterceptor, store_group_message, intercept, try_translate, execute_handler, receive,
  after_intercept, handle_by, and_reply, after_storing,
}

abbrev bang : Char
bang = "!"

prefix_of_command :
    (rest s : String) → has_prefix (String.◌∷◌ bang rest) s ≡ true → has_prefix "!" s ≡ true
unfolding has_prefix
prefix_of_command rest String.[] h = absurd (ground (arith, h))
prefix_of_command rest (String.◌∷◌ c s) h = ground (arith, h)

pub find_handler-matches :
    (m : BotMessage) (kinds : List HandlerKind) (found : HandlerKind)
    → find_handler m kinds ≡ some found
    → matches m found ≡ true
unfolding find_handler
find_handler-matches m [] found h = absurd (ground (arith, h))
find_handler-matches m (kind ∷ kinds) found h = elim (Bool-cases (matches m kind)) [
  | inl here ↦ subst (λ k. matches m k ≡ true) (ground (arith, here)) here
  | inr elsewhere ↦ find_handler-matches m kinds found (ground (arith, elsewhere))
]

-- A message for any handler but the chat begins with `!`.
pub matches-is_command :
    (m : BotMessage) (kind : HandlerKind)
    → matches m kind ≡ true
    → (kind ≡ chat) ⊎ (has_prefix "!" m.text ≡ true)
unfolding matches
matches-is_command m chat h = inl refl
matches-is_command m verify h = inr (prefix_of_command "verify" m.text h)
matches-is_command m clear h = inr (prefix_of_command "clear" m.text h)
matches-is_command m help h = inr (prefix_of_command "help" m.text h)
matches-is_command m models h = inr (prefix_of_command "models" m.text h)
matches-is_command m summary h = inr (prefix_of_command "summary" m.text h)
matches-is_command m negotiate_kind h = inr (prefix_of_command "negotiate" m.text h)
matches-is_command m offer_kind h = inr (prefix_of_command "offer" m.text h)
matches-is_command m deals_kind h = inr (prefix_of_command "deals" m.text h)
matches-is_command m withdraw_kind h = inr (prefix_of_command "withdraw" m.text h)
matches-is_command m balance h = inr (prefix_of_command "balance" m.text h)
matches-is_command m deposit h = inr (prefix_of_command "deposit" m.text h)

-- The two differ in the world at most.
abbrev pub IsSameData : {W F : Type 0} → Running W F → Running W F → Type 0
IsSameData s t =
    (t.bot.credits.store_data ≡ s.bot.credits.store_data)
    × (t.bot.conversations ≡ s.bot.conversations)
    × (t.negotiations ≡ s.negotiations)

module _ {W F : Type 0} (l : Loop W F) (m : BotMessage) where
  -- The translation changes nothing but the world.
  pub intercept_keeps :
      (i : Option (TranslationInterceptor W)) (s : Running W F)
      → let t = (intercept l m i s).1 in
        (t.bot.credits.store_data ≡ s.bot.credits.store_data)
        × (t.bot.conversations ≡ s.bot.conversations)
        × (t.negotiations ≡ s.negotiations)
  unfolding intercept try_translate
  intercept_keeps none s = (refl, refl, refl)
  intercept_keeps (some i) s = ground arith

  -- Nothing but the world has changed, or a handler that matches has answered.
  abbrev pub IsHandled : Running W F → Running W F → Type 0
  IsHandled s t =
      IsSameData s t
      ⊎ ((kind : HandlerKind) × (u : Running W F) × (matches m kind ≡ true)
          × (execute_handler l m kind s ≡ some u)
          × IsSameData u t)

  -- What one message does: a group message is stored, and then it is handled.
  abbrev pub IsReceived : Running W F → Running W F → Type 0
  IsReceived s t =
      (stored s' : Running W F) × (store_group_message l m s ≡ some stored)
      × IsSameData stored s'
      × IsHandled s' t

  replied :
      (kind : HandlerKind) (s' t : Running W F)
      → matches m kind ≡ true
      → and_reply l m (execute_handler l m kind s') ≡ some t
      → (u : Running W F) × (matches m kind ≡ true)
        × (execute_handler l m kind s' ≡ some u)
        × IsSameData u t
  replied kind s' t h e = elim (Option-cases (execute_handler l m kind s')) [
    | inl panicked ↦ absurd (ground (arith, panicked, e))
    | inr (u, done) ↦ (u, h, done, ground (arith, done, e))
  ]

  received_by :
      (r : Bool × Running W F) (t : Running W F) → after_intercept l m r ≡ some t → IsHandled r.1 t
  received_by (true, s') t e = inl (ground (arith, e))
  received_by (false, s') t e = elim (Option-cases (find_handler m (handlers l.payments_enabled))) [
    | inl nobody ↦ inl (ground (arith, nobody, e))
    | inr (kind, found) ↦
        let (u, h, done, same) =
          replied kind s' t (find_handler-matches m (handlers l.payments_enabled) kind found)
            (ap (λ k. handle_by l m k s') (sym found) ∙ e) in
        inr (kind, u, h, done, same)
  ]

  pub receive-IsReceived : (s t : Running W F) → receive l m s ≡ some t → IsReceived s t
  unfolding receive
  receive-IsReceived s t e = elim (Option-cases (store_group_message l m s)) [
    | inl panicked ↦ absurd (ground (arith, panicked, e))
    | inr (stored, kept) ↦ (
      stored,
      (intercept l m l.translation stored).1,
      kept,
      intercept_keeps l.translation stored,
      received_by (intercept l m l.translation stored) t (ap (after_storing l m) (sym kept) ∙ e),
    )
  ]
