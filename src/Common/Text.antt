-- ===== src/Common/Text.antt =====
-- Searches of a text, character by character, and its length in bytes.
use Prim.Native.Char.{code}
use Prim.Native.String.{String}
-- `s.len()`, in bytes of UTF-8, and `&s[a..b]` where that does not panic
pub use Prim.Native.String.{len as byte_length, slice}
use Prim.Native.Nat.{ℕ, min}
use mathlib.Core.Bool.{Bool, true, false, not, ◌&&◌, ◌||◌}
use signal_bot_tee.Common.Tests.{◌==◌}

-- `s.starts_with(p)`
unfoldable pub has_prefix : String → String → Bool
has_prefix String.[] s = true
has_prefix (String.◌∷◌ c p) String.[] = false
has_prefix (String.◌∷◌ c p) (String.◌∷◌ d s) = code c == code d && has_prefix p s

-- `s.contains(p)`
unfoldable pub contains_text : String → String → Bool
unfolding has_prefix
contains_text p String.[] = has_prefix p String.[]
contains_text p (String.◌∷◌ c s) = has_prefix p (String.◌∷◌ c s) || contains_text p s

-- Whether `&s[..n.min(s.len())]` panics: the cut lies inside a character.
unfoldable pub is_cut : ℕ → String → Bool
is_cut n s = let k = min n (byte_length s) in not (byte_length (slice s 0 k) == k)
