-- ===== src/Common/Split.antt =====
-- `str::split` at a character, given by its code: the parts between its occurrences.
use Prim.Native.Nat.{ℕ}
use Prim.Native.Char.{Char, code}
use Prim.Native.String.{String, ◌++◌}
use mathlib.Core.Path.{◌≡◌, refl, ap, sym}
use mathlib.Core.Logic.{inl, inr}
use mathlib.Core.Bool.{Bool, true, false, ◌||◌}
use mathlib.Core.List.{List, [], ◌∷◌}
use text.Mathlib.TextLemmas.{nil-append, cons-append, append-nil}
use native.Mathlib.Omega.{arith}
use signal_bot_tee.Common.Tests.{◌==◌, if◌then◌else◌, Bool-cases}
use signal_bot_tee.Common.TextLines.{prepend}

unfoldable pub split : ℕ → String → List String
split at String.[] = "" ∷ []
split at (String.◌∷◌ c s) =
    let rest = split at s in if code c == at then "" ∷ rest else prepend c rest

-- Whether the character occurs
unfoldable pub has_char : ℕ → String → Bool
has_char at String.[] = false
has_char at (String.◌∷◌ c s) = code c == at || has_char at s

-- The parts of two texts, one after the other: the last part of the one runs into the first of the
-- other.
abbrev pub glue : List String → List String → List String
glue [] ys = ys
glue (x ∷ []) [] = x ∷ []
glue (x ∷ []) (y ∷ ys) = (x ++ y) ∷ ys
glue (x ∷ (z ∷ xs)) ys = x ∷ glue (z ∷ xs) ys

-- A list of parts is never empty.
pub split_cons : (at : ℕ) (s : String) → (x : String) × (xs : List String) × (split at s ≡ x ∷ xs)
unfolding split
split_cons at String.[] = ("", [], refl)
split_cons at (String.◌∷◌ c s) =
    let (x, xs, e) = split_cons at s in
    elim (Bool-cases (code c == at)) [
      | inl here ↦ ("", split at s, rw here refl)
      | inr other ↦ (String.◌∷◌ c x, xs, rw (other, e) refl)
    ]

prepend-glue :
    (c : Char) (x : String) (xs ys : List String)
    → prepend c (glue (x ∷ xs) ys) ≡ glue (prepend c (x ∷ xs)) ys
prepend-glue c x [] [] = refl
prepend-glue c x [] (y ∷ ys) = ap (λ t. t ∷ ys) (sym (cons-append c x y))
prepend-glue c x (z ∷ xs) ys = refl

glue-nil : (y : String) (ys : List String) → glue ("" ∷ []) (y ∷ ys) ≡ y ∷ ys
glue-nil y ys = ap (λ t. t ∷ ys) (nil-append y)

pub split-append : (at : ℕ) (s t : String) → split at (s ++ t) ≡ glue (split at s) (split at t)
unfolding split
split-append at String.[] t =
    let (y, ys, e) = split_cons at t in rw (nil-append t, e) (sym (glue-nil y ys))
split-append at (String.◌∷◌ c s) t =
    let (x, xs, e) = split_cons at s in
    elim (Bool-cases (code c == at)) [
      | inl here ↦ rw (cons-append c s t, here, split-append at s t, e) refl
      | inr other ↦
          rw (cons-append c s t, other, split-append at s t, e) (prepend-glue c x xs (split at t))
    ]

-- A text without the character is its own only part.
pub split_whole : (at : ℕ) (s : String) → has_char at s ≡ false → split at s ≡ s ∷ []
unfolding split has_char
split_whole at String.[] none = refl
split_whole at (String.◌∷◌ c s) none = ground (arith, split_whole at s)

-- A separator after a text without it
pub split-join :
    (at : ℕ) (d : Char) (s t : String)
    → (code d == at) ≡ true
    → has_char at s ≡ false
    → split at (s ++ String.◌∷◌ d t) ≡ s ∷ split at t
unfolding split
split-join at d s t h none =
    rw (split-append at s (String.◌∷◌ d t), split_whole at s none, h)
      (ap (λ x. x ∷ split at t) (append-nil s))

pub has_char-append :
    (at : ℕ) (s t : String) → has_char at (s ++ t) ≡ (has_char at s || has_char at t)
unfolding has_char
has_char-append at String.[] t = ap (has_char at) (nil-append t)
has_char-append at (String.◌∷◌ c s) t =
    rw (cons-append c s t) (ground (arith, has_char-append at s t))
