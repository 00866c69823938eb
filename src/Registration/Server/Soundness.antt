-- ===== src/Registration/Server/Soundness.antt =====
-- What is true of the registry after any requests.
use mathlib.Core.Path.{subst}
use signal_bot_tee.Common.{
  String, ◌≡◌, ◌≢◌, sym, ap, ◌∙◌, inl, inr, Option, some, List, [], ◌∷◌, arith, eq_iff, str_eq,
  Bool-cases, ok, err,
}
use signal_bot_tee.Common.Exec.{Result-cases}
use signal_bot_tee.Common.Table
use signal_bot_tee.Registration.Phone.{normalize_phone_number}
use signal_bot_tee.Registration.Phone.Canonical.{IsE164, normalize_phone_number_lem}
use signal_bot_tee.Registration.Registry
use signal_bot_tee.Registration.Registry.{
  PhoneNumberRecord, pending, verified, failed, empty_registry, mark_verified,
}
use signal_bot_tee.Registration.Transition.{
  Transition, kept, started, confirmed, adopted, removed, configured, Moves,
}
use signal_bot_tee.Registration.Outside.{Outside}
use signal_bot_tee.Registration.Proxy.{Proxy}
use signal_bot_tee.Registration.Handlers.{
  register_number, verify_registration, unregister, debug_force_unregister, adopt_account,
}
use signal_bot_tee.Registration.Handlers.Bots.{
  update_profile, set_username, delete_username, update_bot_config,
}
use signal_bot_tee.Registration.Handlers.Registering.{register_number-Moves}
use signal_bot_tee.Registration.Handlers.Verifying.{verify_registration-Moves}
use signal_bot_tee.Registration.Handlers.Removing.{unregister-Moves, debug_force_unregister-Moves}
use signal_bot_tee.Registration.Handlers.Adopting.{adopt_account-Moves}
use signal_bot_tee.Registration.Handlers.Configuring.{
  update_profile-Moves, set_username-Moves, delete_username-Moves, update_bot_config-Moves,
}
use signal_bot_tee.Registration.Server.{
  Request, to_register, to_verify, to_unregister, to_force_unregister, to_adopt, to_update_profile,
  to_set_username, to_delete_username, to_update_config, serve, serve_all,
}

module _ {W : Type 0} (o : Outside W) (number : String) (s : Proxy W) where
  -- Every request moves the record of the number that it names, in E.164 form, along a
  -- `Transition`, and moves no other record.
  pub serve-Moves :
      (q : Request) {n : String}
      → normalize_phone_number number ≡ ok n
      → Moves n s.registry (serve o number q s).registry
  unfolding serve
  serve-Moves (to_register q) h = register_number-Moves o number _ s h q
  serve-Moves (to_verify code q) h = verify_registration-Moves o number _ s h code q
  serve-Moves (to_unregister q) h = unregister-Moves o number _ s h q
  serve-Moves to_force_unregister h = debug_force_unregister-Moves o number _ s h
  serve-Moves (to_adopt q) h = adopt_account-Moves o number _ s h q
  serve-Moves (to_update_profile q) h = update_profile-Moves o number _ s h q
  serve-Moves (to_set_username q) h = set_username-Moves o number _ s h q
  serve-Moves (to_delete_username q) h = delete_username-Moves o number _ s h q
  serve-Moves (to_update_config q) h = update_bot_config-Moves o number _ s h q

  -- A request for a text that is no number changes nothing, inside or outside.
  pub serve_misspelt :
      (q : Request) {e : String} → normalize_phone_number number ≡ err e → serve o number q s ≡ s
  unfolding serve register_number verify_registration unregister debug_force_unregister
      adopt_account update_profile set_username delete_username update_bot_config
  serve_misspelt (to_register q) h = ground arith
  serve_misspelt _ h = ground arith

-- A record that may stand under the key `n`.
pub record IsSoundRecord (n : String) (r : PhoneNumberRecord) : Type 0 where
  pub named : r.phone_number ≡ n
  pub normal : IsE164 n
  pub not_failed : r.status ≢ failed

pub record IsSound (reg : Registry.Registry) : Type 0 where
  pub at : (n : String) (r : PhoneNumberRecord) → Registry.get n reg ≡ some r → IsSoundRecord n r

pub IsSound-empty : IsSound empty_registry
unfolding Registry.get Table.get
IsSound-empty = record { at = λ n r h. cc }

Transition-IsSound :
    (n : String) (old : Option PhoneNumberRecord) (r : PhoneNumberRecord)
    → IsE164 n
    → ((q : PhoneNumberRecord) → old ≡ some q → IsSoundRecord n q)
    → Transition n old (some r)
    → IsSoundRecord n r
unfolding mark_verified
Transition-IsSound n old r e sound (kept same) = sound r (sym same)
Transition-IsSound n old r e sound (started q _ p named eq) = record {
  named = ground arith;
  normal = e;
  not_failed = ground arith;
}
Transition-IsSound n old r e sound (confirmed q was p eq) = record {
  named = ground (arith, (sound q was).named);
  normal = e;
  not_failed = ground arith;
}
Transition-IsSound n old r e sound (adopted q _ v named eq) = record {
  named = ground arith;
  normal = e;
  not_failed = ground arith;
}
Transition-IsSound n old r e sound (removed eq) = cc
Transition-IsSound n old r e sound (configured q q' was v v' same _ eq) = record {
  named = ground (arith, (sound q was).named);
  normal = e;
  not_failed = ground arith;
}

Moves-IsSound :
    (n : String) (old new : Registry.Registry)
    → IsE164 n
    → IsSound old
    → Moves n old new
    → IsSound new
Moves-IsSound n old new e sound moves = record {
  at = λ m r found. elim (Bool-cases (str_eq n m)) [
    | inl same ↦
        let eq : n ≡ m = (eq_iff n m).0 same in
        subst (λ k. IsSoundRecord k r) eq
          (Transition-IsSound n (Registry.get n old) r e (sound.at n) (
            subst (λ x. Transition n (Registry.get n old) x)
              (ap (λ k. Registry.get k new) eq ∙ found) moves.own))
    | inr other ↦ sound.at m r (sym (moves.others m (λ eq. ground (arith, eq_iff n m))) ∙ found)
  ];
}

module _ {W : Type 0} (o : Outside W) where
  serve-IsSound :
      (number : String) (q : Request) (s : Proxy W)
      → IsSound s.registry
      → IsSound (serve o number q s).registry
  serve-IsSound number q s sound = elim (Result-cases (normalize_phone_number number)) [
    | inl (n, h) ↦
        Moves-IsSound n s.registry (serve o number q s).registry
          ((normalize_phone_number_lem number n).1 h).0 sound (serve-Moves o number s q h)
    | inr (e, h) ↦ rw (serve_misspelt o number s q h) sound
  ]

  -- If every record stands under its own number, in E.164 form, and none is marked as failed, that
  -- is so after any requests.
  pub serve_all-IsSound :
      (requests : List (String × Request)) (s : Proxy W)
      → IsSound s.registry
      → IsSound (serve_all o requests s).registry
  unfolding serve_all
  serve_all-IsSound [] s sound = sound
  serve_all-IsSound ((number, q) ∷ rest) s sound =
      serve_all-IsSound rest (serve o number q s) (serve-IsSound number q s sound)
