-- ===== src/Common/Http.antt =====
-- The answer to an HTTP request: `none` as a body is a body that could not be read.
use Prim.Native.Nat.{ℕ}
use Prim.Native.String.{String}
use mathlib.Core.Bool.{Bool, ◌&&◌}
use mathlib.Core.Option.{Option}
use signal_bot_tee.Common.Tests.{leb, ltb}

pub record HttpResponse : Type 0 where
  pub status : ℕ
  pub body : Option String

-- `StatusCode::is_success`
unfoldable pub success_status : ℕ → Bool
success_status status = leb 200 status && ltb status 300

unfoldable pub is_success : HttpResponse → Bool
unfolding success_status
is_success r = success_status r.status
