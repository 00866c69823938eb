-- ===== src/Registration/Server.antt =====
-- The requests that change the proxy, one constructor for each route of
-- crates/signal-registration-proxy/src/api/mod.rs that can, handled one after the other.
pub mod Soundness
pub mod Ownership
use signal_bot_tee.Common.{String, List, [], ◌∷◌}
use signal_bot_tee.Registration.Outside.{Outside}
use signal_bot_tee.Registration.Requests.{
  RegisterRequest, VerifyRequest, UnregisterRequest, AdoptAccountRequest, UpdateProfileRequest,
  SetUsernameRequest, DeleteUsernameRequest, UpdateBotConfigRequest,
}
use signal_bot_tee.Registration.Proxy.{Proxy}
use signal_bot_tee.Registration.Handlers.{
  register_number, verify_registration, unregister, debug_force_unregister, adopt_account,
}
use signal_bot_tee.Registration.Handlers.Bots.{
  update_profile, set_username, delete_username, update_bot_config,
}

pub data Request : Type 0 where
  to_register : RegisterRequest → Request
  to_verify : String → VerifyRequest → Request
  to_unregister : UnregisterRequest → Request
  to_force_unregister : Request
  to_adopt : AdoptAccountRequest → Request
  to_update_profile : UpdateProfileRequest → Request
  to_set_username : SetUsernameRequest → Request
  to_delete_username : DeleteUsernameRequest → Request
  to_update_config : UpdateBotConfigRequest → Request

module _ {W : Type 0} (o : Outside W) where
  unfoldable pub serve : String → Request → Proxy W → Proxy W
  serve number (to_register q) s = (register_number o number q s).1
  serve number (to_verify code q) s = (verify_registration o number code q s).1
  serve number (to_unregister q) s = (unregister o number q s).1
  serve number to_force_unregister s = (debug_force_unregister o number s).1
  serve number (to_adopt q) s = (adopt_account o number q s).1
  serve number (to_update_profile q) s = (update_profile o number q s).1
  serve number (to_set_username q) s = (set_username o number q s).1
  serve number (to_delete_username q) s = (delete_username o number q s).1
  serve number (to_update_config q) s = (update_bot_config o number q s).1

  unfoldable pub serve_all : List (String × Request) → Proxy W → Proxy W
  serve_all [] s = s
  serve_all ((number, q) ∷ rest) s = serve_all rest (serve number q s)
