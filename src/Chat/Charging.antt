-- ===== src/Chat/Charging.antt =====
-- crates/signal-bot/src/commands/chat.rs: who pays for an answer, what, and how often.
use mathlib.Core.Path.{subst}
use signal_bot_tee.Conversation.Store.{add_assistant_with_tools, add_message}
use signal_bot_tee.Common.{
  ℕ, some, zero, suc, String, Bool, true, false, Option, none, List, [], ◌∷◌, Result, ok, err, ◌≡◌,
  ◌⊎◌, inl, inr, refl, Bool-cases, if◌then◌else◌, ◌&&◌, not,
}
use signal_bot_tee.Common.Text.{byte_length}
use signal_bot_tee.Conversation.Types.{StoredToolCall}
use signal_bot_tee.Credits.Store.Data.{CreditStoreData, spend, has_credits}
use signal_bot_tee.Credits.Pricing.{TokenUsage, estimate_credits, calculate_credits}
use signal_bot_tee.Credits.Types.{new_usage}
use signal_bot_tee.Credits.Store.Platform.{Platform}
use signal_bot_tee.Credits.Store.Persist.{CreditStore}
use signal_bot_tee.Credits.Store.Persist.RoundTrip.{store_data-deduct_credits}
use signal_bot_tee.Chat.Types.{
  NearAiError, rate_limit, empty_response, other_error, Response, BotMessage, Services,
  reply_target,
}
use signal_bot_tee.Chat.Usage.{added, prompts, completions}
use signal_bot_tee.Chat.Handler.{
  ChatHandler, Bot, Answer, insufficient, too_many_requests, no_response, ai_unavailable,
  too_many_tools, final, Progress, start, accumulate, answer_of_error, converse, run_tools,
  build_messages, with_world, finalize_response, usage_of, cost_of_progress, charge_answer,
  requested, respond, after_reply, run_loop, execute,
}

module _ {W : Type 0} (p : Platform W) (o : Services W) (h : ChatHandler) (m : BotMessage) where
  -- The calls of a round, and what the rounds after them report
  abbrev after_calls :
      (Bot W → List (Option TokenUsage))
      → Option String
      → List StoredToolCall
      → Bot W
      → List (Option TokenUsage)
  after_calls next content [] s = []
  after_calls next content (c ∷ cs) s = next (
      run_tools p o h m (c ∷ cs) (
        converse p o h m
          (λ now utc. add_assistant_with_tools now utc (reply_target m) content (c ∷ cs)) s))

  abbrev of_reply :
      (Bot W → List (Option TokenUsage))
      → Result NearAiError Response
      → Bot W
      → List (Option TokenUsage)
  of_reply next (err e) s = []
  of_reply next (ok r) s = r.usage ∷ after_calls next r.content (requested p o h m r.tool_calls) s

  -- The usage that the model reports with each of its replies, in at most so many rounds
  abbrev pub reported : ℕ → Bool → Bot W → List (Option TokenUsage)
  reported zero ran s = []
  reported (suc n) ran s =
      let offered = not ran && o.has_tools s.credits.world in
      let (r, w) = o.chat_with_tools (build_messages p o h m s) offered s.credits.world in
      of_reply (reported n true) r (with_world p o h m w s)

  -- What an execution that started with the data `d` does to them, by its answer, for the prompt and
  -- completion tokens of all its rounds
  abbrev pub IsSettled : ℕ → ℕ → CreditStoreData → Answer → CreditStoreData → Type 0
  IsSettled prompt completion d (insufficient n) d' = d' ≡ d
  IsSettled prompt completion d too_many_requests d' = d' ≡ d
  IsSettled prompt completion d no_response d' = d' ≡ d
  IsSettled prompt completion d ai_unavailable d' = d' ≡ d
  IsSettled prompt completion d too_many_tools d' = d' ≡ d
  IsSettled prompt completion d (final response cost) d' =
      let used : ℕ =
        calculate_credits (record { prompt_tokens = prompt; completion_tokens = completion })
          h.pricing_config in
      ((h.payments_enabled ≡ false) × (d' ≡ d))
      ⊎ ((h.payments_enabled ≡ true)
          × (utc : ℕ) × (d'
              ≡ (spend utc m.source used
                  (new_usage utc m.source (reply_target m) prompt completion used) d).1))

  store_data-run_tools :
      (cs : List StoredToolCall) (s : Bot W)
      → (run_tools p o h m cs s).credits.store_data ≡ s.credits.store_data
  unfolding run_tools
  store_data-run_tools [] s = refl
  store_data-run_tools (c ∷ cs) s = store_data-run_tools cs _

  charge_answer-IsSettled :
      (v : Progress) (r : String) (s : Bot W)
      → let (a, t) = charge_answer p o h m v (r, s) in
        IsSettled v.total_prompt_tokens v.total_completion_tokens s.credits.store_data a
          t.credits.store_data
  unfolding charge_answer cost_of_progress usage_of
  charge_answer-IsSettled v r s =
      let utc = o.utc s.credits.world in
      let used = cost_of_progress p o h m v in
      go h.payments_enabled refl _ _
        (store_data-deduct_credits p utc m.source used (usage_of p o h m utc used v) s.credits)
    where
      go :
          (b : Bool)
          → h.payments_enabled ≡ b
          → (cost : Option (ℕ × ℕ)) (c : CreditStore W)
          → (let used = cost_of_progress p o h m v in
              let utc = o.utc s.credits.world in
              c.store_data
              ≡ (spend utc m.source used (usage_of p o h m utc used v) s.credits.store_data).1)
          → let end : Answer × Bot W =
              if b then (final r cost, record s { credits = c }) else (final r none, s) in
            let (a, t) = end in
            IsSettled v.total_prompt_tokens v.total_completion_tokens s.credits.store_data a
              t.credits.store_data
      go true on cost c kept = inr (on, o.utc s.credits.world, kept)
      go false off cost c kept = inl (off, refl)

  respond-IsSettled :
      (next : Progress → Bot W → Answer × Bot W) (rest : Bool → Bot W → List (Option TokenUsage))
      (v : Progress) (content : Option String) (cs : List StoredToolCall) (s : Bot W)
      → ((u : Progress) (t : Bot W)
          → let us = rest u.tools_executed t in
            IsSettled
              (added prompts u.total_prompt_tokens us)
              (added completions u.total_completion_tokens us)
              t.credits.store_data
              (next u t).0
              (next u t).1.credits.store_data)
      → let (a, t) = respond p o h m next v content cs s in
        let us = after_calls (rest true) content cs s in
        IsSettled
          (added prompts v.total_prompt_tokens us)
          (added completions v.total_completion_tokens us)
          s.credits.store_data
          a
          t.credits.store_data
  unfolding respond finalize_response
  respond-IsSettled next rest v content [] s settles =
      let (response, t) = finalize_response p o h m content s in
      charge_answer-IsSettled v response t
  respond-IsSettled next rest v content (c ∷ cs) s settles =
      let asked : Bot W =
        converse p o h m
          (λ now utc. add_assistant_with_tools now utc (reply_target m) content (c ∷ cs)) s in
      let u : Progress = record v { tools_executed = true } in
      let t : Bot W = run_tools p o h m (c ∷ cs) asked in
      let us : List (Option TokenUsage) = rest true t in
      subst
        (λ d.
          IsSettled (added prompts v.total_prompt_tokens us)
            (added completions v.total_completion_tokens us) d (next u t).0
            (next u t).1.credits.store_data)
        (store_data-run_tools (c ∷ cs) asked) (settles u t)

  error-IsSettled :
      (x y : ℕ) (d : CreditStoreData) (e : NearAiError) → IsSettled x y d (answer_of_error e) d
  error-IsSettled x y d rate_limit = refl
  error-IsSettled x y d empty_response = refl
  error-IsSettled x y d other_error = refl

  added-accumulate :
      (usage : Option TokenUsage) (us : List (Option TokenUsage)) (v : Progress)
      → (added prompts (accumulate usage v).total_prompt_tokens us
          ≡ added prompts v.total_prompt_tokens (usage ∷ us))
        × (added completions (accumulate usage v).total_completion_tokens us
            ≡ added completions v.total_completion_tokens (usage ∷ us))
  unfolding accumulate
  added-accumulate none us v = (refl, refl)
  added-accumulate (some u) us v = (refl, refl)

  after_reply-IsSettled :
      (next : Progress → Bot W → Answer × Bot W) (rest : Bool → Bot W → List (Option TokenUsage))
      (v : Progress) (r : Result NearAiError Response) (s : Bot W)
      → ((u : Progress) (t : Bot W)
          → let us = rest u.tools_executed t in
            IsSettled
              (added prompts u.total_prompt_tokens us)
              (added completions u.total_completion_tokens us)
              t.credits.store_data
              (next u t).0
              (next u t).1.credits.store_data)
      → let (a, t) = after_reply p o h m next v r s in
        let us = of_reply (rest true) r s in
        IsSettled
          (added prompts v.total_prompt_tokens us)
          (added completions v.total_completion_tokens us)
          s.credits.store_data
          a
          t.credits.store_data
  unfolding after_reply
  after_reply-IsSettled next rest v (err e) s settles =
      error-IsSettled v.total_prompt_tokens v.total_completion_tokens s.credits.store_data e
  after_reply-IsSettled next rest v (ok r) s settles =
      let cs = requested p o h m r.tool_calls in
      let (a, t) = respond p o h m next (accumulate r.usage v) r.content cs s in
      let (same_prompts, same_completions) =
        added-accumulate r.usage (after_calls (rest true) r.content cs s) v in
      let us = after_calls (rest true) r.content cs s in
      let x1 : ℕ = added prompts (accumulate r.usage v).total_prompt_tokens us in
      let y2 : ℕ = added completions v.total_completion_tokens (r.usage ∷ us) in
      subst (λ x. IsSettled x y2 s.credits.store_data a t.credits.store_data) same_prompts
        (subst (λ y. IsSettled x1 y s.credits.store_data a t.credits.store_data) same_completions
          (respond-IsSettled next rest (accumulate r.usage v) r.content cs s settles))

  run_loop-IsSettled :
      (n : ℕ) (v : Progress) (s : Bot W)
      → let (a, t) = run_loop p o h m n v s in
        let us = reported n v.tools_executed s in
        IsSettled
          (added prompts v.total_prompt_tokens us)
          (added completions v.total_completion_tokens us)
          s.credits.store_data
          a
          t.credits.store_data
  unfolding run_loop
  run_loop-IsSettled zero v s = refl
  run_loop-IsSettled (suc n) v s =
      after_reply-IsSettled (run_loop p o h m n) (reported n) v _ _ (run_loop-IsSettled n)

  -- The conversation with the user's message, with which the rounds begin
  abbrev pub asked : Bot W → Bot W
  asked s =
      converse p o h m
        (λ now utc. add_message now utc (reply_target m) "user" m.text (some h.system_prompt)) s

  -- However many rounds an execution takes, it changes the credit data at most once: by one charge
  -- of the sender, if payments are enabled and there is an answer of the model. It charges the price
  -- of the prompt and the completion tokens that the model has reported with the replies of all the
  -- rounds, added up as `u32` numbers, and logs these. A refusal, an error of the model and running
  -- out of rounds charge nothing, whatever the earlier rounds used.
  pub execute-IsSettled :
      (s : Bot W)
      → let (a, t) = execute p o h m s in
        let us = reported h.max_tool_iterations false (asked s) in
        IsSettled
          (added prompts 0 us)
          (added completions 0 us)
          s.credits.store_data
          a
          t.credits.store_data
  unfolding execute
  execute-IsSettled s =
      let utc : ℕ = o.utc s.credits.world in
      let estimate : ℕ = estimate_credits (byte_length m.text) h.pricing_config in
      elim (Bool-cases
        (h.payments_enabled && not (has_credits utc m.source estimate s.credits.store_data))) [
          | inl poor ↦ rw poor refl
          | inr rich ↦ rw rich (run_loop-IsSettled h.max_tool_iterations start _)
        ]
