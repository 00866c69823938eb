-- ===== src/Registration/Phone.antt =====
-- `normalize_phone_number` of crates/signal-registration-proxy/src/registry/mod.rs.
pub mod Canonical
use Prim.Native.Char.{Char, code}
use signal_bot_tee.Common.{
  ℕ, suc, String, Bool, false, ◌&&◌, ◌||◌, leb, ltb, ◌==◌, if◌then◌else◌, Result, ok, err,
}

-- `char::is_ascii_digit`
unfoldable pub is_ascii_digit : Char → Bool
is_ascii_digit c = leb b'0' (code c) && leb (code c) b'9'

-- `chars().filter(is_ascii_digit).collect()`
unfoldable pub digits_of : String → String
digits_of String.[] = String.[]
digits_of (String.◌∷◌ c s) =
    let rest = digits_of s in if is_ascii_digit c then String.◌∷◌ c rest else rest

-- The number of characters, which is `len()` for digits.
unfoldable pub text_length : String → ℕ
text_length String.[] = 0
text_length (String.◌∷◌ c s) = suc (text_length s)

-- `starts_with('+')`
unfoldable pub has_plus : String → Bool
has_plus String.[] = false
has_plus (String.◌∷◌ c s) = code c == b'+'

abbrev pub plus : String → String
plus s = String.◌∷◌ "+" s

unfoldable pub normalize_phone_number : String → Result String String
normalize_phone_number number =
    let digits = digits_of number in
    let n = text_length digits in
    if n == 0
    then err "Phone number must contain at least one digit"
    else if ltb n 7
    then err "Phone number too short"
    else if ltb 15 n
    then err "Phone number too long"
    else if has_plus number || leb 10 n
    then ok (plus digits)
    else err "Phone number must include country code"
