-- ===== src/Registration/Handlers/Verifying.antt =====
-- `verify_registration` confirms a pending registration, or changes no record.
use signal_bot_tee.Common.{String, ◌≡◌, ap, Option, some, arith, ok, Option-cases, inl, inr}
use signal_bot_tee.Common.Exec.{bind_end, ◌>>◌}
use signal_bot_tee.Registration.Phone.{normalize_phone_number}
use signal_bot_tee.Registration.Registry
use signal_bot_tee.Registration.Registry.{
  PhoneNumberRecord, pending, verified, failed, same_status, has_status, verify_ownership,
  mark_verified, new_record,
}
use signal_bot_tee.Registration.Transition.{
  confirmed, Moves, insert-own, insert-others, with_mut-some,
}
use signal_bot_tee.Registration.Outside.{Outside}
use signal_bot_tee.Registration.Requests.{VerifyRequest}
use signal_bot_tee.Registration.Proxy.{Proxy, call}
use signal_bot_tee.Registration.Handlers.{verify_registration, verify_check, verify_commit}
use signal_bot_tee.Registration.Handlers.Moved.{Moved, Moved-same}

module _ {W : Type 0} (o : Outside W) (n : String) where
  verify_check-ok :
      (secret : Option String) (s : Proxy W)
      → ((verify_check o n secret s).1 ≡ s)
        × ((verify_check o n secret s).0 ≡ ok tt
            → (r : PhoneNumberRecord) × (Registry.get n s.registry ≡ some r) × (r.status ≡ pending))
  unfolding verify_check
  verify_check-ok secret s = elim (Option-cases (Registry.get n s.registry)) [
    | inl missing ↦ (ground arith, λ h. absurd (ground arith))
    | inr (r, found) ↦ (ground arith, λ h. (r, found, ground arith))
  ]

  pub registry-verify_commit :
      (s : Proxy W)
      → (verify_commit o n s).1.registry ≡ Registry.with_mut n mark_verified s.registry
  unfolding verify_commit
  registry-verify_commit s = ground arith

  confirm-Moves :
      (reg : Registry.Registry) (r : PhoneNumberRecord)
      → Registry.get n reg ≡ some r
      → r.status ≡ pending
      → Moves n reg (Registry.with_mut n mark_verified reg)
  confirm-Moves reg r found p = rw (with_mut-some n mark_verified r reg found) (record {
    own = confirmed r found p (insert-own n (mark_verified r) reg);
    others = λ m h. insert-others n m (mark_verified r) reg h;
  })

module _ {W : Type 0} (o : Outside W) (number n : String) (s : Proxy W)
    (spelled : normalize_phone_number number ≡ ok n) where
  pub verify_registration-Moves :
      (code : String) (request : VerifyRequest)
      → Moves n s.registry (verify_registration o number code request s).1.registry
  unfolding verify_registration
  verify_registration-Moves code request =
      let (same, was_pending) = verify_check-ok o n request.ownership_secret s in
      let checked = (verify_check o n request.ownership_secret s).1 in
      let sent = (call (o.verify n code request.pin) checked).1 in
      let registry_sent : sent.registry ≡ s.registry = ap (λ t. t.registry) same in
      rw spelled (
        bind_end (Moved n s.registry) (verify_check o n request.ownership_secret)
          (λ _. call (o.verify n code request.pin) >> verify_commit o n) s
          (λ e _. Moved-same n checked registry_sent)
          (λ _ passed.
            bind_end (Moved n s.registry) (call (o.verify n code request.pin))
              (λ _. verify_commit o n) checked (λ e _. Moved-same n sent registry_sent)
              (λ _ _.
                let (r, found, p) = was_pending passed in
                rw (registry-verify_commit o n sent, registry_sent)
                  (confirm-Moves o n s.registry r found p))))
