-- ===== src/Registration/Handlers/Removing.antt =====
-- `unregister` and `debug_force_unregister` remove a record, or change none.
use signal_bot_tee.Common.{String, ◌≡◌, refl, ap, Option, arith, ok}
use signal_bot_tee.Common.Exec.{bind_end, pure, ◌>>◌}
use signal_bot_tee.Registration.Phone.{normalize_phone_number}
use signal_bot_tee.Registration.Registry
use signal_bot_tee.Registration.Registry.{
  PhoneNumberRecord, pending, verified, failed, same_status, has_status, verify_ownership,
  mark_verified, new_record,
}
use signal_bot_tee.Registration.Transition.{Moves, remove-Moves}
use signal_bot_tee.Registration.Outside.{Outside}
use signal_bot_tee.Registration.Requests.{UnregisterRequest}
use signal_bot_tee.Registration.Proxy.{Proxy, call, write, save}
use signal_bot_tee.Registration.Handlers.{
  unregister, unregister_check, unregister_commit, debug_force_unregister,
}
use signal_bot_tee.Registration.Handlers.Moved.{Moved, Moved-same}

module _ {W : Type 0} (o : Outside W) (n : String) where
  unregister_check-same :
      (secret : Option String) (s : Proxy W) → (unregister_check o n secret s).1 ≡ s
  unfolding unregister_check
  unregister_check-same secret s = ground arith

  registry-unregister_commit :
      (s : Proxy W) → (unregister_commit o n s).1.registry ≡ Registry.remove n s.registry
  unfolding unregister_commit
  registry-unregister_commit s = ground arith

module _ {W : Type 0} (o : Outside W) (number n : String) (s : Proxy W)
    (spelled : normalize_phone_number number ≡ ok n) where
  pub unregister-Moves :
      (request : UnregisterRequest) → Moves n s.registry (unregister o number request s).1.registry
  unfolding unregister
  unregister-Moves request =
      let checked = (unregister_check o n request.ownership_secret s).1 in
      let same : checked ≡ s = unregister_check-same o n request.ownership_secret s in
      let sent = (call (o.unregister n) checked).1 in
      let registry_sent : sent.registry ≡ s.registry = ap (λ t. t.registry) same in
      rw spelled (
        bind_end (Moved n s.registry) (unregister_check o n request.ownership_secret)
          (λ _. call (o.unregister n) >> unregister_commit o n) s
          (λ e _. Moved-same n checked registry_sent)
          (λ _ _.
            bind_end (Moved n s.registry) (call (o.unregister n)) (λ _. unregister_commit o n)
              checked (λ e _. Moved-same n sent registry_sent)
              (λ _ _.
                rw (registry-unregister_commit o n sent, registry_sent)
                  (remove-Moves n s.registry))))

  pub debug_force_unregister-Moves :
      Moves n s.registry (debug_force_unregister o number s).1.registry
  unfolding debug_force_unregister
  debug_force_unregister-Moves =
      let sent = (call (o.unregister n) s).1 in
      rw spelled (
        bind_end (Moved n s.registry) (call (o.unregister n))
          (λ _. write (Registry.remove n) >> (save o >> pure n)) s (λ e _. Moved-same n sent refl)
          (λ _ _.
            bind_end (Moved n s.registry) (save o) (λ _. pure n)
              (record sent { registry = Registry.remove n sent.registry })
              (λ e _. remove-Moves n s.registry) (λ _ _. remove-Moves n s.registry)))
