-- ===== src/Registration/Listing/Blocking.antt =====
-- One system prompt can take the public listing of all bots down.
use signal_bot_tee.Common.{
  ℕ, String, ◌≡◌, ◌≢◌, refl, ap, ◌∙◌, true, Option, none, some, List, [], ◌∷◌, ok, IsIn,
  IsIn-keep_if, inl, inr, arith, str_eq, Option-cases, Bool-cases, is_some, if◌then◌else◌,
}
use signal_bot_tee.Common.Exec.{bind_ok, bind_end}
use signal_bot_tee.Common.Table
use signal_bot_tee.Common.Table.{Table}
use signal_bot_tee.Registration.Phone.{normalize_phone_number}
use signal_bot_tee.Registration.Registry
use signal_bot_tee.Registration.Registry.{
  Registry, PhoneNumberRecord, verified, same_status, update_config, list_all,
}
use signal_bot_tee.Registration.Transition.{insert-own}
use signal_bot_tee.Registration.Outside.{Outside, Call}
use signal_bot_tee.Registration.Requests.{UpdateBotConfigRequest, BotConfigResponse}
use signal_bot_tee.Registration.Proxy.{Proxy, save}
use signal_bot_tee.Registration.Handlers.Bots.{owner_check, update_bot_config, update_config_commit}
use signal_bot_tee.Registration.Handlers.Configuring.{owner_check-ok}
use signal_bot_tee.Registration.Listing.{
  BotInfo, cuts_character, first_line, describe, description_of, push_bot, list_each, list_bots,
}

-- The first line of the prompt is longer than 100 bytes, and byte 100 is inside a character.
abbrev pub IsBlocking : Option String → Type 0
IsBlocking prompt = (line : String) × (first_line prompt ≡ some line) × (cuts_character line ≡ true)

description_of-blocking :
    (prompt : Option String) → IsBlocking prompt → description_of (first_line prompt) ≡ none
unfolding description_of describe
description_of-blocking prompt (line, first, cut) = rw (first, description_of, describe, cut) refl

IsIn-get :
    {V : Type 0} (k : String) (v : V) (t : Table V)
    → Table.get k t ≡ some v
    → IsIn v (Table.values t)
unfolding Table.get
IsIn-get k v [] h = cc
IsIn-get k v ((j, w) ∷ t) h = elim (Bool-cases (str_eq j k)) [
  | inl here ↦ inl (ground (arith, h, here))
  | inr later ↦ inr (IsIn-get k v t (ground (arith, h, later)))
]

module _ {W : Type 0} (rfc3339 : ℕ → String) (get_identity : String → Call W (Option String)) where
  push_bot-none :
      (b : BotInfo) (o : Option (List BotInfo) × W)
      → o.0 ≡ none
      → (push_bot rfc3339 get_identity b o).0 ≡ none
  push_bot-none b (none, w) h = refl
  push_bot-none b (some bots, w) h = absurd (cc)

  list_each-blocked :
      (r : PhoneNumberRecord) (rs : List PhoneNumberRecord) (w : W)
      → IsIn r rs
      → IsBlocking r.system_prompt
      → (list_each rfc3339 get_identity rs w).0 ≡ none
  unfolding list_each
  list_each-blocked r [] w h blocking = absurd h
  list_each-blocked r (x ∷ rs) w (inl same) blocking =
      rw (list_each, description_of-blocking x.system_prompt (rw (← same) blocking)) refl
  list_each-blocked r (x ∷ rs) w (inr later) blocking =
      elim (Option-cases (description_of (first_line x.system_prompt))) [
        | inl stops ↦ rw (list_each, stops) refl
        | inr (description, goes_on) ↦
            rw (list_each, goes_on)
              (push_bot-none _ (list_each rfc3339 get_identity rs (get_identity x.phone_number w).1)
                (list_each-blocked r rs (get_identity x.phone_number w).1 later blocking))
      ]

  list_bots-blocked :
      (n : String) (r : PhoneNumberRecord) (reg : Registry) (w : W)
      → Registry.get n reg ≡ some r
      → r.status ≡ verified
      → IsBlocking r.system_prompt
      → (list_bots rfc3339 get_identity reg w).0 ≡ none
  unfolding list_bots Registry.get Registry.list_all
  list_bots-blocked n r reg w found v blocking =
      list_each-blocked r _ w
        (IsIn-keep_if (λ x. same_status x.status verified) r (Table.values reg.records) (rw v refl)
          (IsIn-get n r reg.records found))
        blocking

no_line : {line : String} → first_line none ≢ some line
unfolding first_line
no_line h = cc

-- A prompt that blocks is one that the request gives, and so the one that is stored.
given_prompt :
    (given stored : Option String)
    → IsBlocking given
    → IsBlocking (if is_some given then given else stored)
given_prompt none stored (line, first, cut) = absurd (no_line first)
given_prompt (some prompt) stored blocking = blocking

prompt_set :
    (request : UpdateBotConfigRequest) (r : PhoneNumberRecord)
    → IsBlocking request.system_prompt
    → IsBlocking (update_config request.model request.system_prompt r).system_prompt
unfolding update_config
prompt_set request r blocking = given_prompt request.system_prompt r.system_prompt blocking

verified_still :
    (request : UpdateBotConfigRequest) (r : PhoneNumberRecord)
    → r.status ≡ verified
    → (update_config request.model request.system_prompt r).status ≡ verified
unfolding update_config
verified_still request r v = v

module _ {W : Type 0} (rfc3339 : ℕ → String) (get_identity : String → Call W (Option String))
    (o : Outside W) (n : String) where
  update_config_commit-insert :
      (request : UpdateBotConfigRequest) (r : PhoneNumberRecord) (s : Proxy W)
      → Registry.get n s.registry ≡ some r
      → (update_config_commit o n request s).1.registry
        ≡ Registry.insert n (update_config request.model request.system_prompt r) s.registry
  unfolding update_config_commit
  update_config_commit-insert request r s found =
      let r' = update_config request.model request.system_prompt r in
      let written = Registry.insert n r' s.registry in
      rw found (
        bind_end (λ t. t.registry ≡ written) (save o) _ (record s { registry = written })
          (λ e _. refl) (λ _ _. refl))

  -- The registry of a configuration that was accepted
  configured :
      (number : String) (request : UpdateBotConfigRequest) (s : Proxy W)
      {answer : BotConfigResponse}
      → normalize_phone_number number ≡ ok n
      → (update_bot_config o number request s).0 ≡ ok answer
      → (r : PhoneNumberRecord) × (r.status ≡ verified)
        × ((update_bot_config o number request s).1.registry
            ≡ Registry.insert n (update_config request.model request.system_prompt r) s.registry)
  unfolding update_bot_config
  configured number request s spelled accepted =
      let check = owner_check o n request.ownership_secret in
      let (same, found) = owner_check-ok o n request.ownership_secret s in
      let (_, passed, whole) =
        bind_ok check (λ _. update_config_commit o n request) s (rw spelled at accepted) in
      let (r, here, v) = found passed in
      let kept : (check s).1.registry ≡ s.registry = ap (λ t. t.registry) same in
      (
        r,
        v,
        rw (spelled, whole)
            (update_config_commit-insert request r (check s).1 (rw kept here)
              ∙ ap (Registry.insert n (update_config request.model request.system_prompt r)) kept),
      )

  -- An owner whose configuration is accepted, with a system prompt of which byte 100 is inside a
  -- character of a longer first line, makes the listing of all bots panic.
  pub list_bots-blocked_by :
      (number : String) (request : UpdateBotConfigRequest) (s : Proxy W) (w : W)
      {answer : BotConfigResponse}
      → normalize_phone_number number ≡ ok n
      → (update_bot_config o number request s).0 ≡ ok answer
      → IsBlocking request.system_prompt
      → (list_bots rfc3339 get_identity (update_bot_config o number request s).1.registry w).0
        ≡ none
  list_bots-blocked_by number request s w spelled accepted blocking =
      let (r, v, written) = configured number request s spelled accepted in
      rw written (
        list_bots-blocked rfc3339 get_identity n _ _ w (insert-own n _ s.registry)
          (verified_still request r v) (prompt_set request r blocking))
