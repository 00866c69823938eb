-- ===== src/Translation/RateLimiter.antt =====
-- crates/translation/src/translator.rs: `TokenBucket`, over whatever arithmetic `f64` has; the clock
-- counts nanoseconds.
use signal_bot_tee.Common.{
  ℕ, zero, suc, ◌+◌, ◌-◌, ◌≤◌, ◌<◌, min, Bool, true, false, ◌≡◌, ap, ◌∙◌, leb, if◌then◌else◌, arith,
  refl, Bool-cases, inl, inr,
}

-- The operations of `f64` that the bucket uses; `as_secs` is `Duration::as_secs_f64`.
pub record Float (F : Type 0) : Type 0 where
  pub of_nat : ℕ → F
  pub as_secs : ℕ → F
  pub add : F → F → F
  pub sub : F → F → F
  pub mul : F → F → F
  pub div : F → F → F
  pub smaller : F → F → F
  pub is_at_least : F → F → Bool

pub record TokenBucket (F : Type 0) : Type 0 where
  pub tokens : F
  pub capacity : F
  pub refill_rate : F
  pub last_refill : ℕ

module _ {F : Type 0} (f : Float F) where
  -- `TokenBucket::new`
  unfoldable pub new_bucket : ℕ → ℕ → TokenBucket F
  new_bucket per_minute now =
      let full : F = f.of_nat per_minute in
      record {
        tokens = full;
        capacity = full;
        refill_rate = f.div full (f.of_nat 60);
        last_refill = now;
      }

  -- The refill; `duration_since` is zero if the clock has not moved on.
  unfoldable pub refill : ℕ → TokenBucket F → TokenBucket F
  refill now b =
      let elapsed = f.as_secs (now - b.last_refill) in
      record b {
        tokens = f.smaller (f.add b.tokens (f.mul elapsed b.refill_rate)) b.capacity;
        last_refill = now;
      }

  abbrev pub take_token : TokenBucket F → Bool × TokenBucket F
  take_token b =
      if f.is_at_least b.tokens (f.of_nat 1)
      then (true, record b { tokens = f.sub b.tokens (f.of_nat 1) })
      else (false, b)

  unfoldable pub try_acquire : ℕ → TokenBucket F → Bool × TokenBucket F
  unfolding refill
  try_acquire now b = take_token (refill now b)

  abbrev pub one_if : Bool → ℕ
  one_if true = 1
  one_if false = 0

  -- So many calls at one instant: how many of them get a token, and the bucket after them
  abbrev pub burst : ℕ → ℕ → TokenBucket F → ℕ × TokenBucket F
  burst now zero b = (0, b)
  burst now (suc calls) b =
      let (got, b') = try_acquire now b in
      let (more, end) = burst now calls b' in (one_if got + more, end)

  -- What IEEE 754 says of these operations: at the integers that `f64` holds exactly, which the numbers
  -- of tokens of a `u32` are, nothing is rounded, and no time adds nothing; elsewhere, rounding keeps
  -- the order.
  pub record IsFloat : Type 1 where
    pub is_below : F → F → Type 0
    pub same : (t : ℕ) → is_below (f.of_nat t) (f.of_nat t)
    pub no_time :
        (x : F) (t k : ℕ)
        → is_below x (f.of_nat t)
        → is_below (f.add x (f.mul (f.as_secs 0) (f.div (f.of_nat k) (f.of_nat 60)))) (f.of_nat t)
    pub no_time_exact :
        (t k : ℕ)
        → f.add (f.of_nat t) (f.mul (f.as_secs 0) (f.div (f.of_nat k) (f.of_nat 60))) ≡ f.of_nat t
    pub smaller_first :
        (x y : F) (t : ℕ) → is_below x (f.of_nat t) → is_below (f.smaller x y) (f.of_nat t)
    pub smaller_second : (x : F) (t : ℕ) → is_below (f.smaller x (f.of_nat t)) (f.of_nat t)
    pub smaller_exact :
        (t k : ℕ) → t ≤ k → k < 4294967296 → f.smaller (f.of_nat t) (f.of_nat k) ≡ f.of_nat t
    pub below_one : (x : F) → is_below x (f.of_nat 0) → f.is_at_least x (f.of_nat 1) ≡ false
    pub at_least_one : (t : ℕ) → t < 4294967296 → f.is_at_least (f.of_nat t) (f.of_nat 1) ≡ leb 1 t
    pub sub_one :
        (x : F) (t : ℕ)
        → t < 4294967295
        → is_below x (f.of_nat (suc t))
        → is_below (f.sub x (f.of_nat 1)) (f.of_nat t)
    pub sub_one_exact :
        (t : ℕ) → t < 4294967295 → f.sub (f.of_nat (suc t)) (f.of_nat 1) ≡ f.of_nat t

  -- The bucket of so many tokens a minute, after some calls: with whatever tokens, and last filled then
  abbrev pub bucket_of : ℕ → F → ℕ → TokenBucket F
  bucket_of per_minute tokens last = record {
    tokens = tokens;
    capacity = f.of_nat per_minute;
    refill_rate = f.div (f.of_nat per_minute) (f.of_nat 60);
    last_refill = last;
  }

  take_token_below :
      (laws : IsFloat) (k now : ℕ) (x : F) (t : ℕ)
      → t < 4294967296
      → laws.is_below x (f.of_nat t)
      → let (got, b') = take_token (bucket_of k x now) in
        (t' : ℕ) × (x' : F) × (one_if got + t' ≤ t)
        × (b' ≡ bucket_of k x' now)
        × laws.is_below x' (f.of_nat t')
  take_token_below laws k now x zero small below =
      rw (laws.below_one x below) (0, x, omega arith, refl, below)
  take_token_below laws k now x (suc t) small below =
      elim (Bool-cases (f.is_at_least x (f.of_nat 1))) [
        | inl enough ↦ rw enough (
          t,
          f.sub x (f.of_nat 1),
          omega arith,
          refl,
          laws.sub_one x t (omega (arith, small)) below,
        )
        | inr few ↦ rw few (suc t, x, omega arith, refl, below)
      ]

  -- The tokens of that bucket when it has been refilled
  abbrev pub refilled : ℕ → F → ℕ → ℕ → F
  refilled k x last now =
      f.smaller (f.add x (f.mul (f.as_secs (now - last)) (f.div (f.of_nat k) (f.of_nat 60))))
        (f.of_nat k)

  refilled_again :
      (laws : IsFloat) (k x' now : ℕ) (x : F)
      → laws.is_below x (f.of_nat x')
      → laws.is_below (refilled k x now now) (f.of_nat x')
  refilled_again laws k t now x below =
      let none_passed : now - now ≡ 0 = omega arith in
      rw (refilled, none_passed) (laws.smaller_first _ (f.of_nat k) t (laws.no_time x t k below))

  burst_below :
      (laws : IsFloat) (calls k last now : ℕ) (x : F) (t : ℕ)
      → t < 4294967296
      → laws.is_below (refilled k x last now) (f.of_nat t)
      → (burst now calls (bucket_of k x last)).0 ≤ t
  unfolding try_acquire refill
  burst_below laws zero k last now x t small below = omega arith
  burst_below laws (suc calls) k last now x t small below =
      let (t', x', paid, same, below') =
        take_token_below laws k now (refilled k x last now) t small below in
      let more =
        burst_below laws calls k now now x' t' (omega (arith, small, paid))
          (refilled_again laws k t' now x' below') in
      let after = ap (λ b. (burst now calls b).0) same in omega (arith, paid, more, after)

  take_token_exact :
      (laws : IsFloat) (k now t : ℕ)
      → t < 4294967296
      → take_token (bucket_of k (f.of_nat t) now) ≡ (leb 1 t, bucket_of k (f.of_nat (t - 1)) now)
  take_token_exact laws k now zero small = rw (laws.at_least_one zero small) refl
  take_token_exact laws k now (suc t) small =
      let enough : leb 1 (suc t) ≡ true = ground arith in
      let rest : suc t - 1 ≡ t = omega arith in
      rw
        (laws.at_least_one (suc t) small, enough, laws.sub_one_exact t (omega (arith, small)), rest)
        refl

  refilled_exact :
      (laws : IsFloat) (k now t : ℕ)
      → t ≤ k
      → k < 4294967296
      → refilled k (f.of_nat t) now now ≡ f.of_nat t
  refilled_exact laws k now t fits small =
      let none_passed : now - now ≡ 0 = omega arith in
      rw (refilled, none_passed, laws.no_time_exact t k) (laws.smaller_exact t k fits small)

  burst_exact :
      (laws : IsFloat) (calls k now t : ℕ)
      → t ≤ k
      → k < 4294967296
      → (burst now calls (bucket_of k (f.of_nat t) now)).0 ≡ min calls t
  unfolding try_acquire refill
  burst_exact laws zero k now t fits small = omega arith
  burst_exact laws (suc calls) k now t fits small =
      let taken : try_acquire now (bucket_of k (f.of_nat t) now)
          ≡ (leb 1 t, bucket_of k (f.of_nat (t - 1)) now) =
        ap (λ x. take_token (bucket_of k x now)) (refilled_exact laws k now t fits small)
        ∙ take_token_exact laws k now t (omega (arith, fits, small)) in
      let more = burst_exact laws calls k now (t - 1) (omega (arith, fits)) small in
      ap (λ r. one_if r.0 + (burst now calls r.1).0) taken ∙ ground (arith, more)

  -- At an instant, however many calls there are, they get no more than the `u32` number `per_minute` of
  -- tokens, whatever a bucket of that capacity and refill rate holds and however long ago it was
  -- refilled; and if the bucket was made at the instant, they get just so many, or one each if they are
  -- fewer. The arithmetic has the laws IsFloat of `f64`.
  pub burst_bounds :
      (laws : IsFloat) (per_minute calls now last : ℕ) (tokens : F)
      → per_minute < 4294967296
      → ((burst now calls (bucket_of per_minute tokens last)).0 ≤ per_minute)
        × ((burst now calls (new_bucket per_minute now)).0 ≡ min calls per_minute)
  unfolding new_bucket
  burst_bounds laws k calls now last x small = (
    burst_below laws calls k last now x k small (laws.smaller_second _ k),
    burst_exact laws calls k now k (omega arith) small,
  )
