-- ===== src/Registration/Handlers.antt =====
-- crates/signal-registration-proxy/src/api/handlers.rs: the handlers that move a number between
-- the states of its registration. A handler is a check under the read lock, calls of the Signal
-- client with no lock held, and a commit under the write lock; each part is a function here.
pub mod Bots
pub mod Gate
pub mod Moved
pub mod Registering
pub mod Verifying
pub mod Removing
pub mod Adopting
pub mod Configuring
pub mod Races
use signal_bot_tee.Common.{
  String, List, Bool, true, false, Option, none, some, ◌||◌, not, text_append, if◌then◌else◌,
  Result, ok, err,
}
use signal_bot_tee.Common.Exec.{pure, raise, raise_if, ok_or, gets, ◌>>=◌, ◌>>◌}
use signal_bot_tee.Common.Text.{contains_text}
use signal_bot_tee.Common.StringSet
use signal_bot_tee.Registration.Registry
use signal_bot_tee.Registration.Registry.{
  PhoneNumberRecord, pending, verified, failed, same_status, new_record, verify_ownership,
  mark_verified,
}
use signal_bot_tee.Registration.Outside.{
  ProxyError, Outside, already_registered, not_found, ownership_proof_mismatch, signal_api,
}
use signal_bot_tee.Registration.Requests.{
  RegisterRequest, RegisterResponse, VerifyRequest, VerifyResponse, UnregisterRequest,
  AdoptAccountRequest,
}
use signal_bot_tee.Registration.Proxy.{Proxy, Action, normalized, call, write, save}

module _ {W : Type 0} (o : Outside W) where
  unfoldable pub register_allowed :
      String → Option String → Option PhoneNumberRecord → Action W (Unit {0})
  register_allowed number secret none = pure tt
  register_allowed number secret (some r) = elim r.status [
    | verified ↦ raise (already_registered number)
    | pending ↦ raise_if (not (verify_ownership o.hash_secret secret r)) ownership_proof_mismatch
    | failed ↦ pure tt
  ]

  -- The read-locked part of `register_number`
  unfoldable pub register_check : String → Option String → Action W (Unit {0})
  unfolding register_allowed
  register_check number secret s = register_allowed number secret (Registry.get number s.registry) s

  abbrev is_stale : String → Bool
  is_stale msg = contains_text "already registered" msg || contains_text "AlreadyVerified" msg

  abbrev retry_register :
      String → RegisterRequest → String → Result ProxyError (Unit {0}) → Action W (Unit {0})
  retry_register number request msg (ok _) =
      call (o.register number request.captcha request.use_voice)
  retry_register number request msg (err _) = raise (signal_api msg)

  abbrev after_register :
      String → RegisterRequest → Result ProxyError (Unit {0}) → Action W (Unit {0})
  after_register number request (ok _) s = (ok tt, s)
  after_register number request (err (signal_api msg)) s =
      if is_stale msg
      then (let (r, w) = o.unregister number s.world in
          retry_register number request msg r (record s { world = w }))
      else (err (signal_api msg), s)
  after_register number request (err e) s = (err e, s)

  -- A stale account is unregistered and registered once more.
  unfoldable pub register_with_signal : String → RegisterRequest → Action W (Unit {0})
  register_with_signal number request s =
      let (r, w) = o.register number request.captcha request.use_voice s.world in
      after_register number request r (record s { world = w })

  unfoldable pub register_commit : String → RegisterRequest → Action W RegisterResponse
  register_commit number request = do
    now ← gets (λ s. o.now s.world)
    write (
        Registry.insert number (
          new_record o.hash_secret now number request.ownership_secret request.model
            request.system_prompt))
    save o
    pure (record {
      phone_number = number;
      status = "pending";
      message = "Verification code sent. Use /v1/register/{number}/verify/{code} to complete.";
    })

  unfoldable pub register_number : String → RegisterRequest → Action W RegisterResponse
  register_number number request = do
    n ← normalized number
    register_check n request.ownership_secret
    register_with_signal n request
    register_commit n request

  abbrev check_owner : Option String → PhoneNumberRecord → Action W (Unit {0})
  check_owner secret r =
      raise_if (not (verify_ownership o.hash_secret secret r)) ownership_proof_mismatch

  unfoldable pub verify_check : String → Option String → Action W (Unit {0})
  verify_check number secret = do
    found ← gets (λ s. Registry.get number s.registry)
    r ← ok_or found (not_found number)
    raise_if (not (same_status r.status pending)) (not_found number)
    check_owner secret r

  unfoldable pub verify_commit : String → Action W VerifyResponse
  verify_commit number = do
    write (Registry.with_mut number mark_verified)
    save o
    pure (record {
      phone_number = number;
      status = "verified";
      message = "Phone number registered successfully.";
    })

  unfoldable pub verify_registration : String → String → VerifyRequest → Action W VerifyResponse
  verify_registration number code request = do
    n ← normalized number
    verify_check n request.ownership_secret
    call (o.verify n code request.pin)
    verify_commit n

  unfoldable pub unregister_check : String → Option String → Action W (Unit {0})
  unregister_check number secret = do
    found ← gets (λ s. Registry.get number s.registry)
    r ← ok_or found (not_found number)
    check_owner secret r

  unfoldable pub unregister_commit : String → Action W VerifyResponse
  unregister_commit number = do
    write (Registry.remove number)
    save o
    pure (record {
      phone_number = number;
      status = "unregistered";
      message = "Phone number unregistered successfully.";
    })

  unfoldable pub unregister : String → UnregisterRequest → Action W VerifyResponse
  unregister number request = do
    n ← normalized number
    unregister_check n request.ownership_secret
    call (o.unregister n)
    unregister_commit n

  -- `debug_force_unregister`: no check of the registry or of the owner. The JSON answer is its
  -- `phone_number`.
  unfoldable pub debug_force_unregister : String → Action W String
  debug_force_unregister number = do
    n ← normalized number
    call (o.unregister n)
    write (Registry.remove n)
    save o
    pure n

  unfoldable pub adopt_check : String → Action W (Unit {0})
  adopt_check number s =
      if Registry.is_registered number s.registry
      then (err (already_registered number), s)
      else (ok tt, s)

  unfoldable pub adopt_commit : String → AdoptAccountRequest → Action W VerifyResponse
  adopt_commit number request = do
    now ← gets (λ s. o.now s.world)
    write (
        Registry.insert number (
          mark_verified (
            new_record o.hash_secret now number request.ownership_secret request.model
              request.system_prompt)))
    save o
    pure (record {
      phone_number = number;
      status = "verified";
      message = "Account adopted into registry successfully.";
    })

  unfoldable pub adopt_listed : String → AdoptAccountRequest → List String → Action W VerifyResponse
  adopt_listed number request accounts =
      if StringSet.contains number accounts
      then adopt_commit number request
      else raise (
          signal_api (
            text_append "Account "
              (text_append number " not found in Signal CLI. Register it first.")))

  unfoldable pub adopt_account : String → AdoptAccountRequest → Action W VerifyResponse
  adopt_account number request = do
    n ← normalized number
    adopt_check n
    accounts ← call o.list_accounts
    adopt_listed n request accounts
