-- ===== src/Common/Numeral.antt =====
-- `u64::from_str`, `u64::from_str_radix` and their like: digits, each with a test for overflow.
use Prim.Native.Nat.{ℕ, ◌+◌, ◌-◌, ◌*◌, ◌≤◌}
use Prim.Native.Char.{code}
use Prim.Native.String.{String}
use mathlib.Core.Path.{◌≡◌}
use mathlib.Core.Bool.{true, false, ◌&&◌}
use mathlib.Core.Logic.{inl, inr}
use mathlib.Core.Option.{Option, none, some}
use native.Mathlib.Omega.{arith}
use signal_bot_tee.Common.Tests.{u64_max, ◌==◌, leb, ltb, if◌then◌else◌, Bool-cases, Option-cases}

-- `char::to_digit(radix)`
unfoldable pub to_digit : ℕ → ℕ → Option ℕ
to_digit radix c =
    let d =
      if leb b'0' c && leb c b'9'
      then c - b'0'
      else if leb b'a' c && leb c b'z'
      then c - b'a' + 10
      else if leb b'A' c && leb c b'Z'
      then c - b'A' + 10
      else radix in
    if ltb d radix then some d else none

-- The digits after those that gave `acc`, by `checked_mul` and `checked_add` below `limit`
unfoldable pub parse_digits : ℕ → ℕ → ℕ → String → Option ℕ
parse_digits radix limit acc String.[] = some acc
parse_digits radix limit acc (String.◌∷◌ c s) = elim (to_digit radix (code c)) [
  | none ↦ none
  | some d ↦ elim (leb (acc * radix + d) limit) [
    | true ↦ parse_digits radix limit (acc * radix + d) s
    | false ↦ none
  ]
]

-- A plus sign is accepted in front of a digit at least; the largest value is `limit`.
unfoldable pub from_str_radix : ℕ → ℕ → String → Option ℕ
unfolding to_digit parse_digits
from_str_radix radix limit String.[] = none
from_str_radix radix limit (String.◌∷◌ c String.[]) =
    if code c == b'+' then none else parse_digits radix limit 0 (String.◌∷◌ c "")
from_str_radix radix limit (String.◌∷◌ c (String.◌∷◌ d s)) =
    if code c == b'+'
    then parse_digits radix limit 0 (String.◌∷◌ d s)
    else parse_digits radix limit 0 (String.◌∷◌ c (String.◌∷◌ d s))

-- `str::parse::<u64>`
unfoldable pub parse_u64 : String → Option ℕ
unfolding from_str_radix
parse_u64 s = from_str_radix 10 u64_max s

-- The number that digits write, of any size
unfoldable pub digits_value : ℕ → ℕ → String → Option ℕ
digits_value radix acc String.[] = some acc
digits_value radix acc (String.◌∷◌ c s) = elim (to_digit radix (code c)) [
  | none ↦ none
  | some d ↦ digits_value radix (acc * radix + d) s
]

-- A value is at most the limit, or there is none.
abbrev pub up_to : ℕ → Option ℕ → Option ℕ
up_to limit none = none
up_to limit (some n) = if leb n limit then some n else none

digits_value-le :
    (radix acc : ℕ) (s : String) {n : ℕ} → 1 ≤ radix → digits_value radix acc s ≡ some n → acc ≤ n
unfolding digits_value
digits_value-le radix acc String.[] pos h = ground (arith, h)
digits_value-le radix acc (String.◌∷◌ c s) {n} pos h =
    elim (Option-cases (to_digit radix (code c))) [
      | inl bad ↦ absurd (ground (arith, bad))
      | inr (d, good) ↦
          let later : acc * radix + d ≤ n =
            digits_value-le radix (acc * radix + d) s pos (ground (arith, good)) in
          grind arith
    ]

-- The running test for overflow is the test of the value at the end.
pub parse_digits-eq-up_to :
    (radix limit acc : ℕ) (s : String)
    → 1 ≤ radix
    → acc ≤ limit
    → parse_digits radix limit acc s ≡ up_to limit (digits_value radix acc s)
unfolding parse_digits digits_value
parse_digits-eq-up_to radix limit acc String.[] pos fits = ground arith
parse_digits-eq-up_to radix limit acc (String.◌∷◌ c s) pos fits =
    elim (Option-cases (to_digit radix (code c))) [
      | inl bad ↦ rw (bad, parse_digits, digits_value)
      | inr (d, good) ↦
          rw (good, parse_digits, digits_value)
            (elim (Bool-cases (leb (acc * radix + d) limit)) [
              | inl small ↦
                  rw small
                    (parse_digits-eq-up_to radix limit (acc * radix + d) s pos (ground arith))
              | inr large ↦ rw large (elim (Option-cases (digits_value radix (acc * radix + d) s)) [
                | inl stuck ↦ rw stuck
                | inr (n, value) ↦
                    let over : leb n limit ≡ false =
                      ground (arith, digits_value-le radix (acc * radix + d) s pos value) in
                    rw (value, over)
              ])
            ])
    ]

-- The largest `u128`
abbrev pub u128_max : ℕ
u128_max = 340282366920938463463374607431768211455
