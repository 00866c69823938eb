-- ===== src/Registration/Server/Ownership.antt =====
-- A registered bot stays its owner's, whatever others ask for.
use signal_bot_tee.Common.{
  String, ◌≡◌, refl, ap, ◌∙◌, inl, inr, some, List, [], ◌∷◌, arith, eq_iff, str_eq, false,
  Bool-cases, Result, ok, err,
}
use signal_bot_tee.Common.Exec.{Result-cases}
use signal_bot_tee.Registration.Phone.{normalize_phone_number}
use signal_bot_tee.Registration.Registry
use signal_bot_tee.Registration.Registry.{
  PhoneNumberRecord, pending, verified, verify_ownership, has_status,
}
use signal_bot_tee.Registration.Outside.{Outside, ProxyError}
use signal_bot_tee.Registration.Requests.{AdoptAccountRequest}
use signal_bot_tee.Registration.Proxy.{Proxy}
use signal_bot_tee.Registration.Handlers.{adopt_account, adopt_check}
use signal_bot_tee.Registration.Handlers.Gate.{
  IsRefused, register_verified, stranger_verify, stranger_unregister, stranger_profile,
  stranger_set_username, stranger_delete_username, stranger_config,
}
use signal_bot_tee.Registration.Server.{
  Request, to_register, to_verify, to_unregister, to_force_unregister, to_adopt, to_update_profile,
  to_set_username, to_delete_username, to_update_config, serve, serve_all,
}
use signal_bot_tee.Registration.Server.Soundness.{serve-Moves, serve_misspelt}

module _ {W : Type 0} (o : Outside W) (r : PhoneNumberRecord) where
  -- A request that does not show the secret of `r`. The debugging route asks for no secret, and is
  -- left out.
  abbrev pub IsStranger : Request → Type 0
  IsStranger (to_register q) = Unit
  IsStranger (to_verify code q) = verify_ownership o.hash_secret q.ownership_secret r ≡ false
  IsStranger (to_unregister q) = verify_ownership o.hash_secret q.ownership_secret r ≡ false
  IsStranger to_force_unregister = ⊥
  IsStranger (to_adopt q) = Unit
  IsStranger (to_update_profile q) = verify_ownership o.hash_secret q.ownership_secret r ≡ false
  IsStranger (to_set_username q) = verify_ownership o.hash_secret q.ownership_secret r ≡ false
  IsStranger (to_delete_username q) = verify_ownership o.hash_secret q.ownership_secret r ≡ false
  IsStranger (to_update_config q) = verify_ownership o.hash_secret q.ownership_secret r ≡ false

  abbrev pub AllStrangers : String → List (String × Request) → Type 0
  AllStrangers n [] = Unit
  AllStrangers n ((number, q) ∷ rest) =
      (normalize_phone_number number ≡ ok n → IsStranger q) × AllStrangers n rest

IsRefused-same :
    {W A : Type 0} (s : Proxy W) (r : Result ProxyError A × Proxy W) → IsRefused s r → r.1 ≡ s
IsRefused-same s (ok a, t) h = absurd h
IsRefused-same s (err e, t) h = h

module _ {W : Type 0} (o : Outside W) (n : String) (r : PhoneNumberRecord)
    (registered : r.status ≡ verified) where
  adopt_verified :
      (number : String) (q : AdoptAccountRequest) (s : Proxy W)
      → normalize_phone_number number ≡ ok n
      → Registry.get n s.registry ≡ some r
      → (adopt_account o number q s).1 ≡ s
  unfolding adopt_account adopt_check Registry.is_registered Registry.get
  adopt_verified number q s spelled found = rw (spelled, found, registered) refl

  stranger_changes_nothing :
      (number : String) (q : Request) (s : Proxy W)
      → normalize_phone_number number ≡ ok n
      → Registry.get n s.registry ≡ some r
      → IsStranger o r q
      → serve o number q s ≡ s
  unfolding serve
  stranger_changes_nothing number (to_register q) s spelled found h =
      ap (λ x. x.1) (register_verified o number n r s spelled found q registered)
  stranger_changes_nothing number (to_verify code q) s spelled found h =
      IsRefused-same s _ (stranger_verify o number n r s spelled found code q h)
  stranger_changes_nothing number (to_unregister q) s spelled found h =
      IsRefused-same s _ (stranger_unregister o number n r s spelled found q h)
  stranger_changes_nothing number to_force_unregister s spelled found h = absurd h
  stranger_changes_nothing number (to_adopt q) s spelled found h =
      adopt_verified number q s spelled found
  stranger_changes_nothing number (to_update_profile q) s spelled found h =
      IsRefused-same s _ (stranger_profile o number n r s spelled found q h)
  stranger_changes_nothing number (to_set_username q) s spelled found h =
      IsRefused-same s _ (stranger_set_username o number n r s spelled found q h)
  stranger_changes_nothing number (to_delete_username q) s spelled found h =
      IsRefused-same s _ (stranger_delete_username o number n r s spelled found q h)
  stranger_changes_nothing number (to_update_config q) s spelled found h =
      IsRefused-same s _ (stranger_config o number n r s spelled found q h)

  serve_stranger :
      (number : String) (q : Request) (s : Proxy W)
      → Registry.get n s.registry ≡ some r
      → (normalize_phone_number number ≡ ok n → IsStranger o r q)
      → Registry.get n (serve o number q s).registry ≡ some r
  serve_stranger number q s found h = elim (Result-cases (normalize_phone_number number)) [
    | inl (m, spelled) ↦ elim (Bool-cases (str_eq m n)) [
      | inl same ↦
          let here : normalize_phone_number number ≡ ok n = spelled ∙ ap ok ((eq_iff m n).0 same) in
          rw (stranger_changes_nothing number q s here found (h here)) found
      | inr other ↦
          (serve-Moves o number s q spelled).others n (λ e. ground (arith, eq_iff m n)) ∙ found
    ]
    | inr (e, bad) ↦ rw (serve_misspelt o number s q bad) found
  ]

  -- The record of a verified number outlives, unchanged, any requests that do not show its secret,
  -- for this number or others, in whatever spelling; only the debugging route is left out.
  pub owner_keeps_record :
      (requests : List (String × Request)) (s : Proxy W)
      → Registry.get n s.registry ≡ some r
      → AllStrangers o r n requests
      → Registry.get n (serve_all o requests s).registry ≡ some r
  unfolding serve_all
  owner_keeps_record [] s found h = found
  owner_keeps_record ((number, q) ∷ rest) s found h =
      owner_keeps_record rest (serve o number q s) (serve_stranger number q s found h.0) h.1
