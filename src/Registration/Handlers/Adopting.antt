-- ===== src/Registration/Handlers/Adopting.antt =====
-- `adopt_account` enters a record of an account that Signal knows, or changes none.
use mathlib.Core.Path.{subst}
use signal_bot_tee.Common.StringSet
use signal_bot_tee.Common.{List, String, ◌≡◌, refl, ap, false, arith, ok, Bool-cases, inl, inr}
use signal_bot_tee.Common.Exec.{bind_end, ◌>>=◌}
use signal_bot_tee.Registration.Phone.{normalize_phone_number}
use signal_bot_tee.Registration.Registry
use signal_bot_tee.Registration.Registry.{
  PhoneNumberRecord, pending, verified, failed, same_status, has_status, verify_ownership,
  mark_verified, new_record,
}
use signal_bot_tee.Registration.Transition.{adopted, Moves, Moves-refl, insert-own, insert-others}
use signal_bot_tee.Registration.Outside.{Outside}
use signal_bot_tee.Registration.Requests.{AdoptAccountRequest}
use signal_bot_tee.Registration.Proxy.{Proxy, call}
use signal_bot_tee.Registration.Handlers.{adopt_account, adopt_check, adopt_commit}
use signal_bot_tee.Registration.Handlers.Moved.{Moved, Moved-same}
use signal_bot_tee.Registration.Handlers.{adopt_listed}

module _ {W : Type 0} (o : Outside W) (n : String) where
  adopt_check-ok :
      (s : Proxy W)
      → ((adopt_check o n s).1 ≡ s)
        × ((adopt_check o n s).0 ≡ ok tt → has_status verified (Registry.get n s.registry) ≡ false)
  unfolding adopt_check Registry.is_registered Registry.get
  adopt_check-ok s = ground arith

  pub registry-adopt_commit :
      (request : AdoptAccountRequest) (s : Proxy W)
      → (adopt_commit o n request s).1.registry
        ≡ Registry.insert n
            (mark_verified (
              new_record o.hash_secret
                (o.now s.world)
                n
                request.ownership_secret
                request.model
                request.system_prompt))
            s.registry
  unfolding adopt_commit
  registry-adopt_commit request s = ground arith

  registry-adopt_listed :
      (request : AdoptAccountRequest) (accounts : List String) (s : Proxy W)
      → has_status verified (Registry.get n s.registry) ≡ false
      → Moves n s.registry (adopt_listed o n request accounts s).1.registry
  unfolding adopt_listed new_record mark_verified
  registry-adopt_listed request accounts s unverified =
      elim (Bool-cases (StringSet.contains n accounts)) [
        | inl listed ↦
            rw (listed, registry-adopt_commit request s)
              (record {
                own = adopted _ unverified refl refl (insert-own n _ s.registry);
                others = λ m h. insert-others n m _ s.registry h;
              })
        | inr unlisted ↦ rw unlisted (Moves-refl n s.registry)
      ]

module _ {W : Type 0} (o : Outside W) (number n : String) (s : Proxy W)
    (spelled : normalize_phone_number number ≡ ok n) where
  pub adopt_account-Moves :
      (request : AdoptAccountRequest)
      → Moves n s.registry (adopt_account o number request s).1.registry
  unfolding adopt_account
  adopt_account-Moves request =
      let (same, unverified) = adopt_check-ok o n s in
      let checked = (adopt_check o n s).1 in
      let asked = (call o.list_accounts checked).1 in
      let registry_asked : asked.registry ≡ s.registry = ap (λ t. t.registry) same in
      rw spelled (
        bind_end (Moved n s.registry) (adopt_check o n)
          (λ _. call o.list_accounts >>= adopt_listed o n request) s
          (λ e _. Moved-same n checked registry_asked)
          (λ _ passed.
            bind_end (Moved n s.registry) (call o.list_accounts) (adopt_listed o n request) checked
              (λ e _. Moved-same n asked registry_asked)
              (λ accounts _.
                subst (λ reg. Moves n reg (adopt_listed o n request accounts asked).1.registry)
                  registry_asked
                  (registry-adopt_listed o n request accounts asked
                    (rw registry_asked (unverified passed))))))
