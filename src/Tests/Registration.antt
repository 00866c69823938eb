-- ===== src/Tests/Registration.antt =====
-- A proxy over a Signal client that always agrees, and that counts its calls.
use signal_bot_tee.Common.Table
use signal_bot_tee.Common.{
  ℕ, ◌+◌, String, ◌≡◌, refl, ◌↔◌, true, false, Bool, Option, none, some, List, [], ◌∷◌, ok,
}
use signal_bot_tee.Common.StringSet
use signal_bot_tee.Registration.Phone.{
  normalize_phone_number, digits_of, is_ascii_digit, text_length, has_plus, plus,
}
use signal_bot_tee.Registration.Phone.Canonical.{IsE164, Accepts, normalize_phone_number_lem}
use signal_bot_tee.Registration.Registry
use signal_bot_tee.Registration.Registry.{
  PhoneNumberRecord, pending, verified, empty_registry, verify_ownership, mark_verified, new_record,
}
use signal_bot_tee.Registration.Transition.{Moves}
use signal_bot_tee.Registration.Outside.{Outside}
use signal_bot_tee.Registration.Requests.{RegisterRequest, AdoptAccountRequest}
use signal_bot_tee.Registration.Proxy.{Proxy}
use signal_bot_tee.Registration.Handlers.{
  register_number, register_check, register_commit, verify_check, verify_commit,
  verify_registration, register_with_signal, register_allowed, unregister,
}
use signal_bot_tee.Registration.Handlers.Bots.{
  update_profile, set_username, delete_username, update_bot_config,
}
use signal_bot_tee.Registration.Handlers.Gate.{IsRefused, strangers-IsRefused}
use signal_bot_tee.Registration.Server.{Request, to_register, to_adopt, to_verify, serve, serve_all}
use signal_bot_tee.Registration.Server.Soundness.{
  IsSound, IsSound-empty, serve-Moves, serve_all-IsSound,
}
use signal_bot_tee.Registration.Server.Ownership.{owner_keeps_record}

abbrev pub number : String
number = "+14155551234"

abbrev pub agreeing : Outside ℕ
agreeing = record {
  now = λ w. w;
  hash_secret = λ s. s;
  register = λ n c v w. (ok tt, w + 1);
  unregister = λ n w. (ok tt, w + 1);
  verify = λ n c p w. (ok tt, w + 1);
  update_profile = λ n a b w. (ok tt, w + 1);
  set_username = λ n u w. (ok (record { username = some u; username_link = none }), w + 1);
  delete_username = λ n w. (ok tt, w + 1);
  list_accounts = λ w. (ok (number ∷ []), w + 1);
  health_check = λ w. (true, w);
  save = λ r w. (ok tt, w + 1);
}

abbrev owner_request : RegisterRequest
owner_request = record {
  captcha = none;
  use_voice = false;
  ownership_secret = some "secret";
  model = none;
  system_prompt = none;
}

abbrev waiting : PhoneNumberRecord
waiting = record {
  phone_number = number;
  registered_at = 1;
  status = pending;
  ownership_proof_hash = some "secret";
  model = none;
  system_prompt = none;
  username = none;
}

abbrev pub bot : PhoneNumberRecord
bot = record waiting { status = verified }

abbrev pub with_record : PhoneNumberRecord → Proxy ℕ
with_record r = record { registry = record { records = (number, r) ∷ [] }; world = 7 }

pub normal : normalize_phone_number "1 (415) 555-1234" ≡ ok number
unfolding normalize_phone_number digits_of is_ascii_digit text_length has_plus
normal = refl

normal_again : normalize_phone_number number ≡ ok number
unfolding normalize_phone_number digits_of is_ascii_digit text_length has_plus
normal_again = refl

found_waiting : Registry.get number (with_record waiting).registry ≡ some waiting
unfolding Registry.get Table.get
found_waiting = refl

found_bot : Registry.get number (with_record bot).registry ≡ some bot
unfolding Registry.get Table.get
found_bot = refl

registered_then_verified :
    let s =
      (register_number agreeing "1 (415) 555-1234" owner_request
        (record { registry = empty_registry; world = 0 })).1 in
    Registry.get number
      (verify_registration agreeing number "123456"
        (record { pin = none; ownership_secret = some "secret" })
        s).1.registry
    ≡ some bot
unfolding register_number verify_registration Registry.get Table.get normalize_phone_number
    text_length digits_of is_ascii_digit has_plus verify_check register_check register_with_signal
    register_commit Registry.insert Table.put new_record verify_ownership verify_commit
    Registry.with_mut mark_verified register_allowed
registered_then_verified = refl

normalize_phone_number_lem_example :
    ((normalize_phone_number "1 (415) 555-1234" ≡ ok number)
      ↔ ((number ≡ plus (digits_of "1 (415) 555-1234")) × Accepts "1 (415) 555-1234"))
    × (normalize_phone_number "1 (415) 555-1234" ≡ ok number
        → IsE164 number × (normalize_phone_number number ≡ ok number))
normalize_phone_number_lem_example = normalize_phone_number_lem "1 (415) 555-1234" number

not_the_owner : verify_ownership (λ s. s) (some "guess") waiting ≡ false
unfolding verify_ownership
not_the_owner = refl

the_owner : verify_ownership (λ s. s) (some "secret") waiting ≡ true
unfolding verify_ownership
the_owner = refl

strangers-IsRefused_example :
    ((code : String) (pin : Option String)
      → IsRefused (with_record waiting) (
          verify_registration agreeing number code
            (record { pin = pin; ownership_secret = some "guess" })
            (with_record waiting)))
    × IsRefused (with_record waiting) (
        unregister agreeing number
          (record { ownership_secret = some "guess" })
          (with_record waiting))
    × ((name about : Option String)
        → IsRefused (with_record waiting) (
            update_profile agreeing number
              (record { name = name; about = about; ownership_secret = some "guess" })
              (with_record waiting)))
    × ((username : String)
        → IsRefused (with_record waiting) (
            set_username agreeing number
              (record { username = username; ownership_secret = some "guess" })
              (with_record waiting)))
    × IsRefused (with_record waiting) (
        delete_username agreeing number
          (record { ownership_secret = some "guess" })
          (with_record waiting))
    × ((model prompt : Option String)
        → IsRefused (with_record waiting) (
            update_bot_config agreeing number
              (record { model = model; system_prompt = prompt; ownership_secret = some "guess" })
              (with_record waiting)))
    × ((captcha : Option String) (voice : Bool) (model prompt : Option String)
        → waiting.status ≡ pending
        → IsRefused (with_record waiting) (
            register_number agreeing number
              (record {
                captcha = captcha;
                use_voice = voice;
                ownership_secret = some "guess";
                model = model;
                system_prompt = prompt;
              })
              (with_record waiting)))
strangers-IsRefused_example =
    strangers-IsRefused agreeing number number waiting (with_record waiting) normal_again
      found_waiting (some "guess") not_the_owner

serve-Moves_example :
    Moves number
      (with_record bot).registry
      (serve agreeing number (to_register owner_request) (with_record bot)).registry
serve-Moves_example =
    serve-Moves agreeing number (with_record bot) (to_register owner_request) normal_again

abbrev start : Proxy ℕ
start = record { registry = empty_registry; world = 0 }

abbrev requests : List (String × Request)
requests =
    ("1 (415) 555-1234", to_register owner_request)
    ∷ (number, to_verify "123456" (record { pin = none; ownership_secret = some "secret" }))
    ∷ ("no number", to_register owner_request)
    ∷ []

serve_all-IsSound_example : IsSound (serve_all agreeing requests start).registry
serve_all-IsSound_example = serve_all-IsSound agreeing requests start IsSound-empty

abbrev adopt_request : AdoptAccountRequest
adopt_request = record { ownership_secret = some "mine"; model = none; system_prompt = none }

abbrev attacks : List (String × Request)
attacks =
    (number, to_adopt adopt_request)
    ∷ ("1 (415) 555-1234", to_verify "1" (record { pin = none; ownership_secret = some "guess" }))
    ∷ []

not_the_bots_owner : verify_ownership (λ s. s) (some "guess") bot ≡ false
unfolding verify_ownership
not_the_bots_owner = refl

owner_keeps_record_example :
    Registry.get number (serve_all agreeing attacks (with_record bot)).registry ≡ some bot
owner_keeps_record_example =
    owner_keeps_record agreeing number bot refl attacks (with_record bot) found_bot
      (λ _. tt, (λ _. not_the_bots_owner, tt))

listed : StringSet.contains number (number ∷ []) ≡ true
unfolding StringSet.contains
listed = refl
