-- ===== src/Registration/Handlers/Configuring.antt =====
-- The handlers of a registered number change the username or the configuration of its record, or
-- no record at all.
use mathlib.Core.Path.{subst}
use signal_bot_tee.Common.{String, ◌≡◌, refl, ap, Option, some, arith, ok, Option-cases, inl, inr}
use signal_bot_tee.Common.Exec.{bind_end, bind_keeps, ◌>>=◌}
use signal_bot_tee.Registration.Phone.{normalize_phone_number}
use signal_bot_tee.Registration.Registry
use signal_bot_tee.Registration.Registry.{PhoneNumberRecord, verified, update_config}
use signal_bot_tee.Registration.Transition.{
  configured, Moves, insert-own, insert-others, with_mut-some,
}
use signal_bot_tee.Registration.Outside.{Outside, UsernameInfo}
use signal_bot_tee.Registration.Requests.{
  UpdateProfileRequest, SetUsernameRequest, DeleteUsernameRequest, UpdateBotConfigRequest,
}
use signal_bot_tee.Registration.Proxy.{Proxy, call, save}
use signal_bot_tee.Registration.Handlers.Moved.{Moved, Moved-same}
use signal_bot_tee.Registration.Handlers.Bots.{
  owner_check, update_profile, set_username, delete_username, update_bot_config,
  set_username_commit, update_config_commit,
}

module _ {W : Type 0} (o : Outside W) (n : String) where
  pub owner_check-ok :
      (secret : Option String) (s : Proxy W)
      → ((owner_check o n secret s).1 ≡ s)
        × ((owner_check o n secret s).0 ≡ ok tt
            → (r : PhoneNumberRecord) × (Registry.get n s.registry ≡ some r)
              × (r.status ≡ verified))
  unfolding owner_check
  owner_check-ok secret s = elim (Option-cases (Registry.get n s.registry)) [
    | inl missing ↦ (ground arith, λ h. absurd (ground arith))
    | inr (r, found) ↦ (ground arith, λ h. (r, found, ground arith))
  ]

  configure-Moves :
      (reg : Registry.Registry) (r r' : PhoneNumberRecord)
      → Registry.get n reg ≡ some r
      → r.status ≡ verified
      → r'.status ≡ verified
      → r'.phone_number ≡ r.phone_number
      → r'.ownership_proof_hash ≡ r.ownership_proof_hash
      → Moves n reg (Registry.insert n r' reg)
  configure-Moves reg r r' found v v' same_number same_hash = record {
    own = configured r r' found v v' same_number same_hash (insert-own n r' reg);
    others = λ m h. insert-others n m r' reg h;
  }

  set_username_commit-Moves :
      (info : UsernameInfo) (r : PhoneNumberRecord) (s : Proxy W)
      → Registry.get n s.registry ≡ some r
      → r.status ≡ verified
      → Moves n s.registry (set_username_commit o n info s).1.registry
  unfolding set_username_commit Registry.set_username
  set_username_commit-Moves info r s found v =
      bind_end (Moved n s.registry) (save o) _
        (record s {
          registry = Registry.with_mut n (Registry.set_username info.username) s.registry;
        })
        (λ e _. moved) (λ _ _. moved)
    where
      moved :
          Moves n s.registry (Registry.with_mut n (Registry.set_username info.username) s.registry)
      moved =
          rw (with_mut-some n (Registry.set_username info.username) r s.registry found) (
            configure-Moves s.registry r (Registry.set_username info.username r) found v v refl
              refl)

  update_config_commit-Moves :
      (request : UpdateBotConfigRequest) (r : PhoneNumberRecord) (s : Proxy W)
      → Registry.get n s.registry ≡ some r
      → r.status ≡ verified
      → Moves n s.registry (update_config_commit o n request s).1.registry
  unfolding update_config_commit update_config
  update_config_commit-Moves request r s found v = rw found (
      bind_end (Moved n s.registry) (save o) _
        (record s {
          registry =
              Registry.insert n (update_config request.model request.system_prompt r) s.registry;
        })
        (λ e _. moved) (λ _ _. moved))
    where
      moved :
          Moves n s.registry
            (Registry.insert n (update_config request.model request.system_prompt r) s.registry)
      moved = configure-Moves s.registry r _ found v v refl refl

module _ {W : Type 0} (o : Outside W) (number n : String) (s : Proxy W)
    (spelled : normalize_phone_number number ≡ ok n) where
  pub set_username-Moves :
      (request : SetUsernameRequest)
      → Moves n s.registry (set_username o number request s).1.registry
  unfolding set_username
  set_username-Moves request =
      let (same, found) = owner_check-ok o n request.ownership_secret s in
      let checked = (owner_check o n request.ownership_secret s).1 in
      let asked = (call (o.set_username n request.username) checked).1 in
      let registry_asked : asked.registry ≡ s.registry = ap (λ t. t.registry) same in
      rw spelled (
        bind_end (Moved n s.registry) (owner_check o n request.ownership_secret)
          (λ _. call (o.set_username n request.username) >>= set_username_commit o n) s
          (λ e _. Moved-same n checked registry_asked)
          (λ _ passed.
            bind_end (Moved n s.registry) (call (o.set_username n request.username))
              (set_username_commit o n) checked (λ e _. Moved-same n asked registry_asked)
              (λ info _.
                let (r, here, v) = found passed in
                subst (λ reg. Moves n reg (set_username_commit o n info asked).1.registry)
                  registry_asked
                  (set_username_commit-Moves o n info r asked (rw registry_asked here) v))))

  pub update_bot_config-Moves :
      (request : UpdateBotConfigRequest)
      → Moves n s.registry (update_bot_config o number request s).1.registry
  unfolding update_bot_config
  update_bot_config-Moves request =
      let (same, found) = owner_check-ok o n request.ownership_secret s in
      let checked = (owner_check o n request.ownership_secret s).1 in
      let registry_checked : checked.registry ≡ s.registry = ap (λ t. t.registry) same in
      rw spelled (
        bind_end (Moved n s.registry) (owner_check o n request.ownership_secret)
          (λ _. update_config_commit o n request) s (λ e _. Moved-same n checked registry_checked)
          (λ _ passed.
            let (r, here, v) = found passed in
            subst (λ reg. Moves n reg (update_config_commit o n request checked).1.registry)
              registry_checked
              (update_config_commit-Moves o n request r checked (rw registry_checked here) v)))

  pub update_profile-Moves :
      (request : UpdateProfileRequest)
      → Moves n s.registry (update_profile o number request s).1.registry
  unfolding update_profile
  update_profile-Moves request =
      let (same, _) = owner_check-ok o n request.ownership_secret s in
      let registry_kept : (update_profile o number request s).1.registry ≡ s.registry = rw spelled (
        bind_keeps (λ t. t.registry) (owner_check o n request.ownership_secret) _ s
          (ap (λ t. t.registry) same) (λ _ t. ground arith)) in
      Moved-same n (update_profile o number request s).1 registry_kept

  pub delete_username-Moves :
      (request : DeleteUsernameRequest)
      → Moves n s.registry (delete_username o number request s).1.registry
  unfolding delete_username
  delete_username-Moves request =
      let (same, _) = owner_check-ok o n request.ownership_secret s in
      let registry_kept : (delete_username o number request s).1.registry ≡ s.registry =
        rw spelled (
          bind_keeps (λ t. t.registry) (owner_check o n request.ownership_secret) _ s
            (ap (λ t. t.registry) same) (λ _ t. ground arith)) in
      Moved-same n (delete_username o number request s).1 registry_kept
