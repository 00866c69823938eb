-- ===== src/Common/Trim.antt =====
-- `str::trim`, `trim_start_matches`, `splitn(2, char::is_whitespace)`, `ends_with` and `replace` of a
-- character, over the characters of a text.
use Prim.Native.Nat.{ℕ, zero, suc, ◌+◌, ◌<◌}
use mathlib.Core.Path.{◌≡◌}
use mathlib.Core.Logic.{inl, inr}
use native.Mathlib.Omega.{arith}
use Prim.Native.Char.{code}
use Prim.Native.String.{String}
use mathlib.Core.Bool.{Bool, ◌&&◌, ◌||◌}
use mathlib.Core.Option.{Option, none, some}
use signal_bot_tee.Common.Tests.{Option-cases, ◌==◌, leb, if◌then◌else◌}

-- The code points with Unicode's property White_Space
unfoldable pub is_whitespace : ℕ → Bool
is_whitespace c =
    leb 9 c && leb c 13
    || c == 0x20
    || c == 0x85
    || c == 0xA0
    || c == 0x1680
    || leb 0x2000 c && leb c 0x200A
    || c == 0x2028
    || c == 0x2029
    || c == 0x202F
    || c == 0x205F
    || c == 0x3000

unfoldable pub trim_start : String → String
unfolding is_whitespace
trim_start String.[] = ""
trim_start (String.◌∷◌ c s) =
    let rest = trim_start s in if is_whitespace (code c) then rest else String.◌∷◌ c s

abbrev pub push_front : Bool → String → String → String
push_front b s String.[] = if b then "" else s
push_front b s (String.◌∷◌ d t) = s

-- A character stays if it is no space, or if something after it stays.
unfoldable pub trim_end : String → String
unfolding is_whitespace
trim_end String.[] = ""
trim_end (String.◌∷◌ c s) =
    let rest = trim_end s in push_front (is_whitespace (code c)) (String.◌∷◌ c rest) rest

unfoldable pub trim : String → String
unfolding trim_start trim_end
trim s = trim_end (trim_start s)

abbrev pub char_count : String → ℕ
char_count String.[] = 0
char_count (String.◌∷◌ c s) = suc (char_count s)

-- `s.strip_prefix(p)`
unfoldable pub strip_prefix : String → String → Option String
strip_prefix String.[] s = some s
strip_prefix (String.◌∷◌ c p) String.[] = none
strip_prefix (String.◌∷◌ c p) (String.◌∷◌ d s) =
    let rest = strip_prefix p s in if code c == code d then rest else none

unfoldable pub strip_all : ℕ → String → String → String
unfolding strip_prefix
strip_all zero p s = s
strip_all (suc fuel) p s = elim (strip_prefix p s) [ none ↦ s | some t ↦ strip_all fuel p t ]

-- `s.trim_start_matches(p)`, for a `p` that is not empty: each round takes a character at least
unfoldable pub trim_start_matches : String → String → String
unfolding strip_all
trim_start_matches p s = strip_all (suc (char_count s)) p s

-- `s.splitn(2, char::is_whitespace)`: what stands before the first space, and what after it
unfoldable pub split_space : String → String × Option String
unfolding is_whitespace
split_space String.[] = ("", none)
split_space (String.◌∷◌ c s) =
    let (head, tail) = split_space s in
    if is_whitespace (code c) then ("", some s) else (String.◌∷◌ c head, tail)

-- `s.replace(c, "")` for a character
unfoldable pub remove_char : ℕ → String → String
remove_char k String.[] = ""
remove_char k (String.◌∷◌ c s) =
    let rest = remove_char k s in if code c == k then rest else String.◌∷◌ c rest

count-strip_prefix :
    (p s t : String) → strip_prefix p s ≡ some t → char_count s ≡ char_count p + char_count t
unfolding strip_prefix
count-strip_prefix String.[] s t h = ground (arith, h)
count-strip_prefix (String.◌∷◌ c p) String.[] t h = absurd (ground (arith, h))
count-strip_prefix (String.◌∷◌ c p) (String.◌∷◌ d s) t h = ground (arith, count-strip_prefix p s t)

strip_all_lem :
    (fuel : ℕ) (p s : String)
    → 0 < char_count p
    → char_count s < fuel
    → strip_prefix p (strip_all fuel p s) ≡ none
unfolding strip_all
strip_all_lem zero p s pos enough = absurd (omega arith)
strip_all_lem (suc fuel) p s pos enough = elim (Option-cases (strip_prefix p s)) [
  | inl ended ↦ rw (ended, strip_all) ended
  | inr (t, stripped) ↦
      rw (stripped, strip_all)
        (strip_all_lem fuel p t pos (omega (arith, count-strip_prefix p s t stripped)))
]

-- The fuel is enough: what is left does not begin with the pattern any more.
pub strip_prefix-trim_start_matches :
    (p s : String) → 0 < char_count p → strip_prefix p (trim_start_matches p s) ≡ none
unfolding trim_start_matches
strip_prefix-trim_start_matches p s pos = strip_all_lem (suc (char_count s)) p s pos (omega arith)
