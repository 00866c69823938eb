-- ===== src/Registration/Handlers/Registering.antt =====
-- `register_number` starts a registration, or changes no record.
use signal_bot_tee.Common.{String, ◌≡◌, refl, ap, ◌∙◌, false, Option, arith, ok}
use signal_bot_tee.Common.Exec.{bind_end, ◌>>◌}
use signal_bot_tee.Registration.Phone.{normalize_phone_number}
use signal_bot_tee.Registration.Registry
use signal_bot_tee.Registration.Registry.{
  PhoneNumberRecord, pending, verified, failed, same_status, has_status, verify_ownership,
  mark_verified, new_record,
}
use signal_bot_tee.Registration.Transition.{started, Moves, insert-own, insert-others}
use signal_bot_tee.Registration.Outside.{Outside}
use signal_bot_tee.Registration.Requests.{RegisterRequest}
use signal_bot_tee.Registration.Proxy.{Proxy}
use signal_bot_tee.Registration.Handlers.{
  register_number, register_check, register_with_signal, register_commit,
}
use signal_bot_tee.Registration.Handlers.Moved.{Moved, Moved-same}

module _ {W : Type 0} (o : Outside W) (n : String) where
  register_check-ok :
      (secret : Option String) (s : Proxy W)
      → ((register_check o n secret s).1 ≡ s)
        × ((register_check o n secret s).0 ≡ ok tt
            → has_status verified (Registry.get n s.registry) ≡ false)
  unfolding register_check
  register_check-ok secret s = ground arith

  registry-register_with_signal :
      (request : RegisterRequest) (s : Proxy W)
      → (register_with_signal o n request s).1.registry ≡ s.registry
  unfolding register_with_signal
  registry-register_with_signal request s = ground arith

  pub registry-register_commit :
      (request : RegisterRequest) (s : Proxy W)
      → (register_commit o n request s).1.registry
        ≡ Registry.insert n
            (new_record o.hash_secret
              (o.now s.world)
              n
              request.ownership_secret
              request.model
              request.system_prompt)
            s.registry
  unfolding register_commit
  registry-register_commit request s = ground arith

  -- A handler leaves the registry as it was, or moves it.

  start-Moves :
      (reg : Registry.Registry) (r : PhoneNumberRecord)
      → has_status verified (Registry.get n reg) ≡ false
      → r.status ≡ pending
      → r.phone_number ≡ n
      → Moves n reg (Registry.insert n r reg)
  start-Moves reg r unverified p named = record {
    own = started r unverified p named (insert-own n r reg);
    others = λ m h. insert-others n m r reg h;
  }

module _ {W : Type 0} (o : Outside W) (number n : String) (s : Proxy W)
    (spelled : normalize_phone_number number ≡ ok n) where
  pub register_number-Moves :
      (request : RegisterRequest)
      → Moves n s.registry (register_number o number request s).1.registry
  unfolding register_number new_record
  register_number-Moves request =
      let (same, unverified) = register_check-ok o n request.ownership_secret s in
      let checked = (register_check o n request.ownership_secret s).1 in
      let sent = (register_with_signal o n request checked).1 in
      let registry_sent : sent.registry ≡ s.registry =
        registry-register_with_signal o n request checked ∙ ap (λ t. t.registry) same in
      rw spelled (
        bind_end (Moved n s.registry) (register_check o n request.ownership_secret)
          (λ _. register_with_signal o n request >> register_commit o n request) s
          (λ e _. Moved-same n checked (ap (λ t. t.registry) same))
          (λ _ passed.
            bind_end (Moved n s.registry) (register_with_signal o n request)
              (λ _. register_commit o n request) checked (λ e _. Moved-same n sent registry_sent)
              (λ _ _.
                rw (registry-register_commit o n request sent, registry_sent)
                  (start-Moves o n s.registry _ (unverified passed) refl refl))))
