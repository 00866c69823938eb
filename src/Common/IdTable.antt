-- ===== src/Common/IdTable.antt =====
-- `HashMap<u64, V>` as an association list, as Table is for texts.
use Prim.Native.Nat.{ℕ}
use mathlib.Core.Bool.{Bool, true, false}
use mathlib.Core.Path.{◌≡◌, refl, subst}
use mathlib.Core.Option.{Option, none, some}
use mathlib.Core.List.{List, [], ◌∷◌}
use native.Mathlib.Omega.{arith}
use signal_bot_tee.Common.Tests.{◌==◌, if◌then◌else◌}

abbrev pub IdTable {ℓ} : Type ℓ → Type ℓ
IdTable V = List (ℕ × V)

module _ {ℓ} {V : Type ℓ} where
  unfoldable pub get : ℕ → IdTable V → Option V
  get k [] = none
  get k ((j, v) ∷ t) = if j == k then some v else get k t

  -- `insert`, and the write through `get_mut`
  unfoldable pub put : ℕ → V → IdTable V → IdTable V
  put k v [] = (k, v) ∷ []
  put k v ((j, w) ∷ t) = if j == k then (k, v) ∷ t else (j, w) ∷ put k v t

  abbrev pub values : IdTable V → List V
  values [] = []
  values ((j, v) ∷ t) = v ∷ values t

  -- What holds of every value
  abbrev pub All : (V → Type 0) → IdTable V → Type 0
  All P [] = Unit
  All P ((j, v) ∷ t) = P v × All P t

module _ {ℓ} {V : Type ℓ} where
  pub get-put :
      (k j : ℕ) (v : V) (t : IdTable V) → get j (put k v t) ≡ (if k == j then some v else get j t)
  unfolding get put
  get-put k j v [] = refl
  get-put k j v ((i, w) ∷ t) = ground (arith, get-put k j v t)

  -- A second write under a key undoes the first.
  pub put-put : (k : ℕ) (v w : V) (t : IdTable V) → put k w (put k v t) ≡ put k w t
  unfolding put
  put-put k v w [] = ground arith
  put-put k v w ((i, x) ∷ t) = ground (arith, put-put k v w t)

  pub put-All : (P : V → Type 0) (k : ℕ) (v : V) (t : IdTable V) → P v → All P t → All P (put k v t)
  unfolding put
  put-All P k v [] p ps = (p, tt)
  put-All P k v ((i, x) ∷ t) p ps = put_at (put-All P k v t p ps.1) (i == k)
    where
      put_at : All P (put k v t) → (b : Bool) → All P (if b then (k, v) ∷ t else (i, x) ∷ put k v t)
      put_at rest true = (p, ps.1)
      put_at rest false = (ps.0, rest)

  pub get-All : (P : V → Type 0) (k : ℕ) {v : V} (t : IdTable V) → All P t → get k t ≡ some v → P v
  unfolding get
  get-All P k [] ps h = absurd (ground (arith, h))
  get-All P k {v} ((i, x) ∷ t) ps h = got_at (get-All P k t ps.1) (i == k) h
    where
      got_at :
          (get k t ≡ some v → P v) → (b : Bool) → (if b then some x else get k t) ≡ some v → P v
      got_at later true e = subst P (ground (arith, e)) ps.0
      got_at later false e = later e
