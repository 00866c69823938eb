-- ===== src/Registration/Storage/Restart.antt =====
-- What a restart of the proxy finds of the registry that was saved.
use signal_bot_tee.Common.{ok, err, Result}
use signal_bot_tee.Platform.{Bytes}
use signal_bot_tee.Registration.Registry.{Registry, empty_registry}
use signal_bot_tee.Registration.Outside.{ProxyError}

-- The registry, if there is a key
abbrev pub if_derived : Result ProxyError Bytes → Registry → Registry
if_derived (ok key) r = r
if_derived (err e) r = empty_registry
