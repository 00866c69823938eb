-- ===== src/Registration/Handlers/Moved.antt =====
-- What a handler has done to the registry when it ends.
use mathlib.Core.Path.{subst}
use signal_bot_tee.Common.{String, ◌≡◌, sym}
use signal_bot_tee.Registration.Registry
use signal_bot_tee.Registration.Transition.{Moves, Moves-refl}
use signal_bot_tee.Registration.Proxy.{Proxy}

module _ {W : Type 0} (n : String) where
  abbrev pub Moved : Registry.Registry → Proxy W → Type 0
  Moved reg t = Moves n reg t.registry

  -- A handler that leaves the registry as it was has moved nothing.
  pub Moved-same : {reg : Registry.Registry} (t : Proxy W) → t.registry ≡ reg → Moved reg t
  Moved-same {reg} t e = subst (λ x. Moves n reg x) (sym e) (Moves-refl n reg)
