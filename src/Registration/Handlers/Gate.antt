-- ===== src/Registration/Handlers/Gate.antt =====
-- Who may do what: without the ownership secret of a number, no handler acts on it.
use signal_bot_tee.Common.{String, ◌≡◌, refl, Bool, false, Option, some, arith, Result, ok, err}
use signal_bot_tee.Registration.Phone.{normalize_phone_number}
use signal_bot_tee.Registration.Registry
use signal_bot_tee.Registration.Registry.{
  PhoneNumberRecord, pending, verified, failed, same_status, verify_ownership,
}
use signal_bot_tee.Registration.Outside.{ProxyError, Outside, already_registered}
use signal_bot_tee.Registration.Requests.{
  RegisterRequest, VerifyRequest, UnregisterRequest, UpdateProfileRequest, SetUsernameRequest,
  DeleteUsernameRequest, UpdateBotConfigRequest,
}
use signal_bot_tee.Registration.Proxy.{Proxy}
use signal_bot_tee.Registration.Handlers.{
  register_number, verify_registration, unregister, register_check, verify_check, unregister_check,
}
use signal_bot_tee.Registration.Handlers.Bots.{
  owner_check, update_profile, set_username, delete_username, update_bot_config,
}

-- The call failed as a stranger's should, and changed neither the registry nor the world.
abbrev pub IsRefused : {W A : Type 0} → Proxy W → Result ProxyError A × Proxy W → Type 0
IsRefused s (ok _, t) = ⊥
IsRefused s (err e, t) = t ≡ s

module _ {W : Type 0} (o : Outside W) (number n : String) (r : PhoneNumberRecord) (s : Proxy W)
    (spelled : normalize_phone_number number ≡ ok n)
    (found : Registry.get n s.registry ≡ some r) where
  -- A verified number is not registered again, whoever asks: no message goes to Signal, and
  -- nothing is saved.
  pub register_verified :
      (request : RegisterRequest)
      → r.status ≡ verified
      → register_number o number request s ≡ (err (already_registered n), s)
  unfolding register_number register_check
  register_verified request v = rw (spelled, found, v) refl

  pub stranger_verify :
      (code : String) (request : VerifyRequest)
      → verify_ownership o.hash_secret request.ownership_secret r ≡ false
      → IsRefused s (verify_registration o number code request s)
  unfolding verify_registration verify_check
  stranger_verify code request h = rw (spelled, found) (ground (arith, h))

  pub stranger_unregister :
      (request : UnregisterRequest)
      → verify_ownership o.hash_secret request.ownership_secret r ≡ false
      → IsRefused s (unregister o number request s)
  unfolding unregister unregister_check
  stranger_unregister request h = rw (spelled, found) (ground (arith, h))

  pub stranger_profile :
      (request : UpdateProfileRequest)
      → verify_ownership o.hash_secret request.ownership_secret r ≡ false
      → IsRefused s (update_profile o number request s)
  unfolding update_profile owner_check
  stranger_profile request h = rw (spelled, found) (ground (arith, h))

  pub stranger_set_username :
      (request : SetUsernameRequest)
      → verify_ownership o.hash_secret request.ownership_secret r ≡ false
      → IsRefused s (set_username o number request s)
  unfolding set_username owner_check
  stranger_set_username request h = rw (spelled, found) (ground (arith, h))

  pub stranger_delete_username :
      (request : DeleteUsernameRequest)
      → verify_ownership o.hash_secret request.ownership_secret r ≡ false
      → IsRefused s (delete_username o number request s)
  unfolding delete_username owner_check
  stranger_delete_username request h = rw (spelled, found) (ground (arith, h))

  pub stranger_config :
      (request : UpdateBotConfigRequest)
      → verify_ownership o.hash_secret request.ownership_secret r ≡ false
      → IsRefused s (update_bot_config o number request s)
  unfolding update_bot_config owner_check
  stranger_config request h = rw (spelled, found) (ground (arith, h))

  pub stranger_register :
      (request : RegisterRequest)
      → r.status ≡ pending
      → verify_ownership o.hash_secret request.ownership_secret r ≡ false
      → IsRefused s (register_number o number request s)
  unfolding register_number register_check
  stranger_register request pending_now h = rw (spelled, found) (ground (arith, h))

  -- Whoever cannot show the ownership secret of a number is refused by every handler that is meant
  -- for its owner, and the refusal changes neither the registry nor anything outside: no call
  -- reaches Signal, and nothing is saved. A new registration is refused so while one is pending.
  pub strangers-IsRefused :
      (secret : Option String)
      → verify_ownership o.hash_secret secret r ≡ false
      → ((code : String) (pin : Option String)
          → IsRefused s (
              verify_registration o number code
                (record { pin = pin; ownership_secret = secret })
                s))
        × IsRefused s (unregister o number (record { ownership_secret = secret }) s)
        × ((name about : Option String)
            → IsRefused s (
                update_profile o number
                  (record { name = name; about = about; ownership_secret = secret })
                  s))
        × ((username : String)
            → IsRefused s (
                set_username o number
                  (record { username = username; ownership_secret = secret })
                  s))
        × IsRefused s (delete_username o number (record { ownership_secret = secret }) s)
        × ((model prompt : Option String)
            → IsRefused s (
                update_bot_config o number
                  (record { model = model; system_prompt = prompt; ownership_secret = secret })
                  s))
        × ((captcha : Option String) (voice : Bool) (model prompt : Option String)
            → r.status ≡ pending
            → IsRefused s (
                register_number o number
                  (record {
                    captcha = captcha;
                    use_voice = voice;
                    ownership_secret = secret;
                    model = model;
                    system_prompt = prompt;
                  })
                  s))
  strangers-IsRefused secret h = (
    λ code pin. stranger_verify code _ h,
    stranger_unregister _ h,
    λ name about. stranger_profile _ h,
    λ username. stranger_set_username _ h,
    stranger_delete_username _ h,
    λ model prompt. stranger_config _ h,
    λ captcha voice model prompt p. stranger_register _ p h,
  )
