-- ===== src/Registration/Client/Calls.antt =====
-- The calls of the client, what each is about, and the requests that it leaves.
use signal_bot_tee.Common.{String, ◌≡◌, Bool, false, Option, List, ◌∷◌}
use signal_bot_tee.Common.Split.{has_char}
use signal_bot_tee.Registration.Client.{
  Method, RequestBody, SignalRegistrationClient, health_check, register, verify, unregister,
  get_account, list_accounts, update_profile, set_username, delete_username, get_identity,
}

-- The calls of the client, with their arguments
pub data SignalCall : Type 0 where
  call_health call_accounts : SignalCall
  call_register : String → Option String → Bool → SignalCall
  call_verify : String → String → Option String → SignalCall
  call_unregister call_account : String → SignalCall
  call_profile : String → Option String → Option String → SignalCall
  call_set_username : String → String → SignalCall
  call_delete_username call_identity : String → SignalCall

-- What a call is about: the operation with its number, and the code and the pin of a verification
pub data Target : Type 0 where
  to_health to_accounts : Target
  to_register to_unregister to_account to_profile to_set_username to_delete_username to_identity :
      String → Target
  to_verify : String → String → Option String → Target

abbrev pub target : SignalCall → Target
target call_health = to_health
target call_accounts = to_accounts
target (call_register n captcha voice) = to_register n
target (call_verify n code pin) = to_verify n code pin
target (call_unregister n) = to_unregister n
target (call_account n) = to_account n
target (call_profile n name about) = to_profile n
target (call_set_username n username) = to_set_username n
target (call_delete_username n) = to_delete_username n
target (call_identity n) = to_identity n

-- The requests so far, the last first
abbrev pub Log : Type 0
Log = List (Method × String)

-- The crate urlencoding: what is encoded can be decoded, and holds no `/`, `?` or `=`.
pub record IsEncoding (encode decode : String → String) : Type 0 where
  pub decodes : (s : String) → decode (encode s) ≡ s
  pub no_slash : (s : String) → has_char 47 (encode s) ≡ false
  pub no_question : (s : String) → has_char 63 (encode s) ≡ false
  pub no_equals : (s : String) → has_char 61 (encode s) ≡ false

module _ (c : SignalRegistrationClient Log) where
  -- The requests after a call
  abbrev pub perform : SignalCall → Log → Log
  perform call_health w = (health_check c w).1
  perform call_accounts w = (list_accounts c w).1
  perform (call_register n captcha voice) w = (register c n captcha voice w).1
  perform (call_verify n code pin) w = (verify c n code pin w).1
  perform (call_unregister n) w = (unregister c n w).1
  perform (call_account n) w = (get_account c n w).1
  perform (call_profile n name about) w = (update_profile c n name about w).1
  perform (call_set_username n username) w = (set_username c n username w).1
  perform (call_delete_username n) w = (delete_username c n w).1
  perform (call_identity n) w = (get_identity c n w).1

  -- The network does nothing but log.
  abbrev pub IsLogging : Type 0
  IsLogging =
      (m : Method) (url : String) (body : RequestBody) (w : Log)
      → (c.send m url body w).1 ≡ (m, url) ∷ w
