-- ===== src/Registration/Requests.antt =====
-- crates/signal-registration-proxy/src/api/types.rs: the bodies of requests and responses.
use signal_bot_tee.Common.{ℕ, String, Bool, Option}
use signal_bot_tee.Registration.Registry.{RegistrationStatus}

pub record RegisterRequest : Type 0 where
  pub captcha : Option String
  pub use_voice : Bool
  pub ownership_secret : Option String
  pub model : Option String
  pub system_prompt : Option String

pub record RegisterResponse : Type 0 where
  pub phone_number : String
  pub status : String
  pub message : String

pub record VerifyRequest : Type 0 where
  pub pin : Option String
  pub ownership_secret : Option String

pub record VerifyResponse : Type 0 where
  pub phone_number : String
  pub status : String
  pub message : String

pub record StatusResponse : Type 0 where
  pub phone_number : String
  pub status : RegistrationStatus
  pub registered_at : ℕ

pub record UnregisterRequest : Type 0 where
  pub ownership_secret : Option String

pub record UpdateProfileRequest : Type 0 where
  pub name : Option String
  pub about : Option String
  pub ownership_secret : Option String

pub record ProfileResponse : Type 0 where
  pub phone_number : String
  pub message : String

pub record SetUsernameRequest : Type 0 where
  pub username : String
  pub ownership_secret : Option String

pub record UsernameResponse : Type 0 where
  pub phone_number : String
  pub username : Option String
  pub username_link : Option String
  pub message : String

pub record DeleteUsernameRequest : Type 0 where
  pub ownership_secret : Option String

pub record AdoptAccountRequest : Type 0 where
  pub ownership_secret : Option String
  pub model : Option String
  pub system_prompt : Option String

pub record UpdateBotConfigRequest : Type 0 where
  pub model : Option String
  pub system_prompt : Option String
  pub ownership_secret : Option String

pub record BotConfigResponse : Type 0 where
  pub phone_number : String
  pub model : Option String
  pub system_prompt : Option String
  pub message : String

pub record HealthResponse : Type 0 where
  pub status : String
  pub registry_count : ℕ
  pub signal_api_healthy : Bool
