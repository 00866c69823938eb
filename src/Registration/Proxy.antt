-- ===== src/Registration/Proxy.antt =====
-- The state that the handlers share (`AppState` of crates/signal-registration-proxy/src/api): the
-- registry behind its lock, and the world behind the Signal client and the store.
use signal_bot_tee.Common.{String, Result, ok, err}
use signal_bot_tee.Common.Exec.{Exec}
use signal_bot_tee.Registration.Phone.{normalize_phone_number}
use signal_bot_tee.Registration.Registry.{Registry}
use signal_bot_tee.Registration.Outside.{ProxyError, invalid_phone_number, Call, Outside}

pub record Proxy (W : Type 0) : Type 0 where
  pub registry : Registry
  pub world : W

abbrev pub Action : Type 0 → Type 0 → Type 0
Action W A = Exec (Proxy W) ProxyError A

-- `map_err(ProxyError::InvalidPhoneNumber)`
abbrev pub map_invalid : Result String String → Result ProxyError String
map_invalid (ok n) = ok n
map_invalid (err e) = err (invalid_phone_number e)

module _ {W : Type 0} where
  abbrev pub normalized : String → Action W String
  normalized number s = (map_invalid (normalize_phone_number number), s)

  abbrev pub call : {A : Type 0} → Call W A → Action W A
  call c s = let (r, w) = c s.world in (r, record s { world = w })

  -- A block that holds the write lock.
  abbrev pub write : (Registry → Registry) → Action W (Unit {0})
  write f s = (ok tt, record s { registry = f s.registry })

  -- `state.store.save(&registry).await?`
  abbrev pub save : Outside W → Action W (Unit {0})
  save o s = call (o.save s.registry) s
