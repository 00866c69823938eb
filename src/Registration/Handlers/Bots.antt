-- ===== src/Registration/Handlers/Bots.antt =====
-- crates/signal-registration-proxy/src/api/handlers.rs: the handlers that read or change a number
-- that is registered already.
use signal_bot_tee.Common.{String, none, Option, not}
use signal_bot_tee.Common.Exec.{pure, raise_if, ok_or, gets, ◌>>=◌, ◌>>◌}
use signal_bot_tee.Registration.Registry
use signal_bot_tee.Registration.Registry.{
  PhoneNumberRecord, verified, same_status, verify_ownership, update_config,
}
use signal_bot_tee.Registration.Outside.{Outside, UsernameInfo, not_found, ownership_proof_mismatch}
use signal_bot_tee.Registration.Requests.{
  UpdateProfileRequest, ProfileResponse, SetUsernameRequest, UsernameResponse, StatusResponse,
  DeleteUsernameRequest, UpdateBotConfigRequest, BotConfigResponse, HealthResponse,
}
use signal_bot_tee.Registration.Proxy.{Proxy, Action, normalized, call, write, save}

module _ {W : Type 0} (o : Outside W) where
  -- The check that starts `update_profile`, `set_username`, `delete_username` and
  -- `update_bot_config`: the number is verified, and the caller owns it.
  unfoldable pub owner_check : String → Option String → Action W (Unit {0})
  owner_check number secret = do
    found ← gets (λ s. Registry.get number s.registry)
    r ← ok_or found (not_found number)
    raise_if (not (same_status r.status verified)) (not_found number)
    raise_if (not (verify_ownership o.hash_secret secret r)) ownership_proof_mismatch

  unfoldable pub update_profile : String → UpdateProfileRequest → Action W ProfileResponse
  update_profile number request = do
    n ← normalized number
    owner_check n request.ownership_secret
    call (o.update_profile n request.name request.about)
    pure (record { phone_number = n; message = "Profile updated successfully." })

  -- The write-locked part of `set_username`
  unfoldable pub set_username_commit : String → UsernameInfo → Action W UsernameResponse
  set_username_commit n info = do
    write (Registry.with_mut n (Registry.set_username info.username))
    save o
    pure (record {
      phone_number = n;
      username = info.username;
      username_link = info.username_link;
      message = "Username set successfully.";
    })

  unfoldable pub set_username : String → SetUsernameRequest → Action W UsernameResponse
  set_username number request = do
    n ← normalized number
    owner_check n request.ownership_secret
    info ← call (o.set_username n request.username)
    set_username_commit n info

  unfoldable pub delete_username : String → DeleteUsernameRequest → Action W UsernameResponse
  delete_username number request = do
    n ← normalized number
    owner_check n request.ownership_secret
    call (o.delete_username n)
    pure (record {
      phone_number = n;
      username = none;
      username_link = none;
      message = "Username deleted successfully.";
    })

  -- The write-locked part of `update_bot_config`
  unfoldable pub update_config_commit : String → UpdateBotConfigRequest → Action W BotConfigResponse
  update_config_commit n request = do
    found ← gets (λ s. Registry.get n s.registry)
    r ← ok_or found (not_found n)
    let r' = update_config request.model request.system_prompt r
    write (Registry.insert n r')
    save o
    pure (record {
      phone_number = n;
      model = r'.model;
      system_prompt = r'.system_prompt;
      message = "Bot configuration updated successfully.";
    })

  unfoldable pub update_bot_config : String → UpdateBotConfigRequest → Action W BotConfigResponse
  update_bot_config number request = do
    n ← normalized number
    owner_check n request.ownership_secret
    update_config_commit n request

  unfoldable pub get_bot_config : String → Action W BotConfigResponse
  get_bot_config number = do
    n ← normalized number
    found ← gets (λ s. Registry.get n s.registry)
    r ← ok_or found (not_found n)
    raise_if (not (same_status r.status verified)) (not_found n)
    pure (record {
      phone_number = r.phone_number;
      model = r.model;
      system_prompt = r.system_prompt;
      message = "Bot configuration retrieved.";
    })

  unfoldable pub get_status : String → Action W StatusResponse
  get_status number = do
    n ← normalized number
    found ← gets (λ s. Registry.get n s.registry)
    r ← ok_or found (not_found n)
    pure (record {
      phone_number = r.phone_number;
      status = r.status;
      registered_at = r.registered_at;
    })

  unfoldable pub health : Proxy W → HealthResponse × Proxy W
  health s =
      let (healthy, w) = o.health_check s.world in
      (
        record {
          status = "ok";
          registry_count = Registry.count s.registry;
          signal_api_healthy = healthy;
        },
        record s { world = w },
      )
