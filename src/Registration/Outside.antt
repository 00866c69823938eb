-- ===== src/Registration/Outside.antt =====
-- What the handlers of crates/signal-registration-proxy/src/api/handlers.rs call: the Signal CLI
-- client, the store that saves the registry, the clock and SHA-256. `W` is the state of all that.
use signal_bot_tee.Common.{ℕ, String, Bool, Option, List, Result}
use signal_bot_tee.Registration.Registry.{Registry}

-- crates/signal-registration-proxy/src/error.rs
pub data ProxyError : Type 0 where
  already_registered not_found invalid_phone_number : String → ProxyError
  ownership_proof_mismatch pending_verification : ProxyError
  signal_api storage encryption tee_not_available : String → ProxyError
  rate_limit_exceeded : ProxyError
  internal : String → ProxyError

pub record UsernameInfo : Type 0 where
  pub username : Option String
  pub username_link : Option String

-- A call of the client or the store: its answer, and what the world is then.
abbrev pub Call : Type 0 → Type 0 → Type 0
Call W A = W → Result ProxyError A × W

pub record Outside (W : Type 0) : Type 0 where
  pub now : W → ℕ
  pub hash_secret : String → String
  -- number, captcha, voice
  pub register : String → Option String → Bool → Call W (Unit {0})
  pub unregister : String → Call W (Unit {0})
  -- number, code, pin
  pub verify : String → String → Option String → Call W (Unit {0})
  -- number, name, about
  pub update_profile : String → Option String → Option String → Call W (Unit {0})
  pub set_username : String → String → Call W UsernameInfo
  pub delete_username : String → Call W (Unit {0})
  pub list_accounts : Call W (List String)
  pub health_check : W → Bool × W
  pub save : Registry → Call W (Unit {0})
