-- ===== src/Common/Exec.antt =====
-- Methods that change a state and may fail with `?`. What was written before the failure stays
-- written, so the state comes back beside the error too.
use mathlib.Core.Bool.{Bool, true, false}
use mathlib.Core.Path.{◌≡◌, refl, ◌∙◌}
use mathlib.Core.Logic.{◌⊎◌, inl, inr}
use mathlib.Core.Option.{Option, none, some}
use signal_bot_tee.Common.Outcome.{Result, ok, err}

abbrev pub Exec : Type 0 → Type 0 → Type 0 → Type 0
Exec S E A = S → Result E A × S

module _ {S E A : Type 0} where
  abbrev pub pure : A → Exec S E A
  pure a s = (ok a, s)

  abbrev pub raise : E → Exec S E A
  raise e s = (err e, s)

  abbrev pub lift : Result E A → Exec S E A
  lift r s = (r, s)

  abbrev pub gets : (S → A) → Exec S E A
  gets f s = (ok (f s), s)

  -- `opt.ok_or(e)?`
  abbrev pub ok_or : Option A → E → Exec S E A
  ok_or none e = raise e
  ok_or (some a) e = pure a

-- The rest of a method after a call that gave `r`.
abbrev pub after : {S E A B : Type 0} → (A → Exec S E B) → Result E A → Exec S E B
after f (ok a) s = f a s
after f (err e) s = (err e, s)

infixl 5 ◌>>=◌ ◌>>◌
abbrev pub ◌>>=◌ : {S E A B : Type 0} → Exec S E A → (A → Exec S E B) → Exec S E B
◌>>=◌ m f s = let (r, s') = m s in after f r s'

abbrev pub ◌>>◌ : {S E A B : Type 0} → Exec S E A → Exec S E B → Exec S E B
m >> k = m >>= λ _. k

-- `if c { return Err(e); }`
abbrev pub raise_if : {S E : Type 0} → Bool → E → Exec S E (Unit {0})
raise_if true e s = (err e, s)
raise_if false e s = (ok tt, s)

abbrev pub modify : {S E : Type 0} → (S → S) → Exec S E (Unit {0})
modify f s = (ok tt, f s)

pub Result-cases {ℓ κ} :
    {E : Type κ} {A : Type ℓ} (r : Result E A) → ((a : A) × (r ≡ ok a)) ⊎ ((e : E) × (r ≡ err e))
Result-cases (ok a) = inl (a, refl)
Result-cases (err e) = inr (e, refl)

module _ {S E A B X : Type 0} (f : S → X) (m : Exec S E A) (k : A → Exec S E B) where
  -- What neither part of a chain changes, the chain does not change.
  pub bind_keeps :
      (s : S) → f (m s).1 ≡ f s → ((a : A) (t : S) → f (k a t).1 ≡ f t) → f ((m >>= k) s).1 ≡ f s
  bind_keeps s h next = go (m s).0 (m s).1 h
    where
      go : (r : Result E A) (t : S) → f t ≡ f s → f (after k r t).1 ≡ f s
      go (ok a) t same = next a t ∙ same
      go (err e) t same = same

module _ {S E A B : Type 0} (m : Exec S E A) (k : A → Exec S E B) where
  -- A chain that returns has its first part return, and is then its second part.
  pub bind_ok :
      (s : S) {b : B}
      → ((m >>= k) s).0 ≡ ok b
      → (a : A) × ((m s).0 ≡ ok a) × ((m >>= k) s ≡ k a (m s).1)
  bind_ok s {b} h = go (m s).0 (m s).1 h
    where
      go :
          (r : Result E A) (t : S)
          → (after k r t).0 ≡ ok b
          → (a : A) × (r ≡ ok a) × (after k r t ≡ k a t)
      go (ok a) t h = (a, refl, refl)
      go (err e) t h = cc

module _ {S E A B : Type 0} (Q : S → Type 0) (m : Exec S E A) (k : A → Exec S E B) where
  -- What holds of the state where a chain ends: after its first part, if that fails, and else
  -- after the second.
  pub bind_end :
      (s : S)
      → ((e : E) → (m s).0 ≡ err e → Q (m s).1)
      → ((a : A) → (m s).0 ≡ ok a → Q (k a (m s).1).1)
      → Q ((m >>= k) s).1
  bind_end s failed passed = go (m s).0 (m s).1 failed passed
    where
      go :
          (r : Result E A) (t : S)
          → ((e : E) → r ≡ err e → Q t)
          → ((a : A) → r ≡ ok a → Q (k a t).1)
          → Q (after k r t).1
      go (ok a) t failed passed = passed a refl
      go (err e) t failed passed = failed e refl
