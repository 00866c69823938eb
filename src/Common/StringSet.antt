-- ===== src/Common/StringSet.antt =====
-- `HashSet<String>` as a list in which `insert` adds what is new.
use Prim.Native.String.{String}
use mathlib.Core.Path.{◌≡◌, refl}
use mathlib.Core.Bool.{Bool, false, ◌||◌}
use mathlib.Core.List.{List, [], ◌∷◌}
use native.Mathlib.Omega.{arith}
use text.Mathlib.Text.{◌==◌}
use text.Mathlib.TextEquality.{eq_iff}
use signal_bot_tee.Common.Tests.{if◌then◌else◌}

abbrev pub StringSet : Type 0
StringSet = List String

unfoldable pub contains : String → StringSet → Bool
contains k [] = false
contains k (x ∷ xs) = x == k || contains k xs

unfoldable pub insert : String → StringSet → StringSet
unfolding contains
insert k xs = if contains k xs then xs else k ∷ xs

unfoldable pub remove : String → StringSet → StringSet
remove k [] = []
remove k (x ∷ xs) = let rest = remove k xs in if x == k then rest else x ∷ rest

pub contains-insert :
    (k j : String) (xs : StringSet) → contains j (insert k xs) ≡ (k == j || contains j xs)
unfolding contains insert
contains-insert k j [] = refl
contains-insert k j (x ∷ xs) =
    ground (arith, eq_iff k j, eq_iff x k, eq_iff x j, contains_eq k j xs)
  where
    contains_eq : (k j : String) (xs : StringSet) → k ≡ j → contains k xs ≡ contains j xs
    contains_eq k j xs e = rw e

pub contains-remove :
    (k j : String) (xs : StringSet)
    → contains j (remove k xs) ≡ (if k == j then false else contains j xs)
unfolding contains remove
contains-remove k j [] = ground arith
contains-remove k j (x ∷ xs) =
    ground (arith, eq_iff k j, eq_iff x k, eq_iff x j, contains-remove k j xs)
