-- ===== src/Chat/Isolation.antt =====
-- crates/signal-bot/src/commands/chat.rs: whose conversation an execution changes.
use signal_bot_tee.Common.{
  ℕ, zero, suc, String, Option, List, [], ◌∷◌, Result, ok, err, ◌≡◌, ◌≢◌, inl, inr, refl, ap, ◌∙◌,
  Bool-cases, ◌&&◌, not,
}
use signal_bot_tee.Common.Text.{byte_length}
use signal_bot_tee.Conversation.Types.{StoredToolCall, Conversation}
use signal_bot_tee.Conversation.Store.{
  get, add_message, add_message_internal, add_assistant_with_tools, add_tool_result,
}
use signal_bot_tee.Conversation.Store.Expiry.{get-write_back_other}
use signal_bot_tee.Credits.Store.Data.{has_credits}
use signal_bot_tee.Credits.Pricing.{estimate_credits}
use signal_bot_tee.Credits.Store.Platform.{Platform}
use signal_bot_tee.Chat.Types.{Response, NearAiError, BotMessage, Services, reply_target}
use signal_bot_tee.Chat.Handler.{
  ChatHandler, Bot, Answer, Progress, start, accumulate, run_tools, finalize_response,
  charge_answer, requested, respond, after_reply, run_loop, execute,
}

module _ {W : Type 0} (p : Platform W) (o : Services W) (h : ChatHandler) (m : BotMessage)
    (later : ℕ) (u : String) (apart : reply_target m ≢ u) where
  abbrev seen : Bot W → Option Conversation
  seen s = get later u s.conversations

  seen-run_tools : (cs : List StoredToolCall) (s : Bot W) → seen (run_tools p o h m cs s) ≡ seen s
  unfolding run_tools add_tool_result add_message_internal
  seen-run_tools [] s = refl
  seen-run_tools (c ∷ cs) s =
      seen-run_tools cs _ ∙ get-write_back_other later _ (reply_target m) u _ s.conversations apart

  seen-charge_answer :
      (v : Progress) (r : String) (s : Bot W)
      → (charge_answer p o h m v (r, s)).1.conversations ≡ s.conversations
  unfolding charge_answer
  seen-charge_answer v r s = elim (Bool-cases h.payments_enabled) [
    | inl on ↦ rw on refl
    | inr off ↦ rw off refl
  ]

  seen-respond :
      (next : Progress → Bot W → Answer × Bot W) (v : Progress) (content : Option String)
      (cs : List StoredToolCall) (s : Bot W)
      → ((w : Progress) (t : Bot W) → seen (next w t).1 ≡ seen t)
      → seen (respond p o h m next v content cs s).1 ≡ seen s
  unfolding respond finalize_response add_message add_assistant_with_tools add_message_internal
  seen-respond next v content [] s same =
      let (response, t) = finalize_response p o h m content s in
      ap (λ c. get later u c) (seen-charge_answer v response t)
      ∙ get-write_back_other later _ (reply_target m) u _ s.conversations apart
  seen-respond next v content (c ∷ cs) s same =
      same _ _
      ∙ seen-run_tools (c ∷ cs) _
      ∙ get-write_back_other later _ (reply_target m) u _ s.conversations apart

  seen-after_reply :
      (next : Progress → Bot W → Answer × Bot W) (v : Progress) (r : Result NearAiError Response)
      (s : Bot W)
      → ((w : Progress) (t : Bot W) → seen (next w t).1 ≡ seen t)
      → seen (after_reply p o h m next v r s).1 ≡ seen s
  unfolding after_reply
  seen-after_reply next v (err e) s same = refl
  seen-after_reply next v (ok r) s same =
      seen-respond next (accumulate r.usage v) r.content (requested p o h m r.tool_calls) s same

  seen-run_loop : (n : ℕ) (v : Progress) (s : Bot W) → seen (run_loop p o h m n v s).1 ≡ seen s
  unfolding run_loop
  seen-run_loop zero v s = refl
  seen-run_loop (suc n) v s = seen-after_reply (run_loop p o h m n) v _ _ (seen-run_loop n)

  -- An execution changes no conversation but the one it replies to, a group's or the sender's: what
  -- the store shows of any other key, at any time, is what it showed before.
  pub get-execute :
      (s : Bot W) → get later u (execute p o h m s).1.conversations ≡ get later u s.conversations
  unfolding execute add_message
  get-execute s =
      let utc : ℕ = o.utc s.credits.world in
      let estimate : ℕ = estimate_credits (byte_length m.text) h.pricing_config in
      elim (Bool-cases
        (h.payments_enabled && not (has_credits utc m.source estimate s.credits.store_data))) [
          | inl poor ↦ rw poor refl
          | inr rich ↦ rw rich (
              seen-run_loop h.max_tool_iterations start _
              ∙ get-write_back_other later _ (reply_target m) u _ s.conversations apart)
        ]
