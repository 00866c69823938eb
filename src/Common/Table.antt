-- ===== src/Common/Table.antt =====
-- `HashMap<String, V>` as an association list. The source's iteration order is unspecified; what
-- depends on it is stated up to order, or not at all.
use Prim.Native.Nat.{◌+◌}
use Prim.Native.String.{String}
use mathlib.Core.Path.{◌≡◌, refl}
use mathlib.Core.Bool.{Bool}
use mathlib.Core.Option.{Option, none, some}
use mathlib.Core.List.{List, [], ◌∷◌}
use native.Mathlib.Omega.{arith}
use text.Mathlib.Text.{◌==◌}
use text.Mathlib.TextEquality.{eq_iff}
use signal_bot_tee.Common.Tests.{if◌then◌else◌}
use signal_bot_tee.Common.Lists.{length}

abbrev pub Table {ℓ} : Type ℓ → Type ℓ
Table V = List (String × V)

module _ {ℓ} {V : Type ℓ} where
  unfoldable pub get : String → Table V → Option V
  get k [] = none
  get k ((j, v) ∷ t) = if j == k then some v else get k t

  -- `insert`, and the write through `get_mut` or `entry`: a key keeps its place
  unfoldable pub put : String → V → Table V → Table V
  put k v [] = (k, v) ∷ []
  put k v ((j, w) ∷ t) = if j == k then (k, v) ∷ t else (j, w) ∷ put k v t

  unfoldable pub remove : String → Table V → Table V
  remove k [] = []
  remove k ((j, v) ∷ t) = let rest = remove k t in if j == k then rest else (j, v) ∷ rest

  -- `retain(|_, v| p(v))`
  unfoldable pub retain : (V → Bool) → Table V → Table V
  retain p [] = []
  retain p ((j, v) ∷ t) = let rest = retain p t in if p v then (j, v) ∷ rest else rest

  abbrev pub values : Table V → List V
  values [] = []
  values ((j, v) ∷ t) = v ∷ values t

  -- No key is bound twice.
  abbrev pub IsKeyed : Table V → Type ℓ
  IsKeyed [] = Unit
  IsKeyed ((j, v) ∷ t) = (get j t ≡ none) × IsKeyed t

module _ {ℓ} {V : Type ℓ} where
  pub get-put :
      (k j : String) (v : V) (t : Table V)
      → get j (put k v t) ≡ (if k == j then some v else get j t)
  unfolding get put
  get-put k j v [] = refl
  get-put k j v ((i, w) ∷ t) = ground (arith, eq_iff k j, eq_iff i k, eq_iff i j, get-put k j v t)

  pub get-remove :
      (k j : String) (t : Table V) → get j (remove k t) ≡ (if k == j then none else get j t)
  unfolding get remove
  get-remove k j [] = ground arith
  get-remove k j ((i, w) ∷ t) = ground (arith, eq_iff k j, eq_iff i k, eq_iff i j, get-remove k j t)

  get-retain-none :
      (p : V → Bool) (k : String) (t : Table V) → get k t ≡ none → get k (retain p t) ≡ none
  unfolding get retain
  get-retain-none p k [] h = refl
  get-retain-none p k ((i, w) ∷ t) h = ground (arith, get-retain-none p k t)

  abbrev pub only_if : (V → Bool) → Option V → Option V
  only_if p none = none
  only_if p (some v) = if p v then some v else none

  -- In a table without double keys, `retain` keeps exactly the entries that pass.
  pub get-retain :
      (p : V → Bool) (k : String) (t : Table V)
      → IsKeyed t
      → get k (retain p t) ≡ only_if p (get k t)
  unfolding get retain
  get-retain p k [] h = refl
  get-retain p k ((i, w) ∷ t) h =
      ground (arith, eq_iff i k, get-retain p k t h.1, get-retain-none p i t h.0)

  pub put-IsKeyed : (k : String) (v : V) (t : Table V) → IsKeyed t → IsKeyed (put k v t)
  unfolding get put
  put-IsKeyed k v [] h = (refl, tt)
  put-IsKeyed k v ((i, w) ∷ t) h =
      ground (arith, eq_iff i k, put-IsKeyed k v t h.1, get-put k i v t, eq_iff k i)

  pub remove-IsKeyed : (k : String) (t : Table V) → IsKeyed t → IsKeyed (remove k t)
  unfolding get remove
  remove-IsKeyed k [] h = tt
  remove-IsKeyed k ((i, w) ∷ t) h = ground (arith, remove-IsKeyed k t h.1, get-remove k i t)

  pub retain-IsKeyed : (p : V → Bool) (t : Table V) → IsKeyed t → IsKeyed (retain p t)
  unfolding get retain
  retain-IsKeyed p [] h = tt
  retain-IsKeyed p ((i, w) ∷ t) h =
      ground (arith, retain-IsKeyed p t h.1, get-retain-none p i t h.0)

  pub length-put :
      (k : String) (v : V) (t : Table V)
      → length (put k v t) ≡ (elim (get k t) [ none ↦ length t + 1 | some _ ↦ length t ])
  unfolding get put
  length-put k v [] = omega arith
  length-put k v ((i, w) ∷ t) = ground (arith, length-put k v t)

pub ruleset table_laws = (get-put, get-remove)
