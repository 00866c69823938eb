-- ===== src/Credits/Store/Persist/RoundTrip.antt =====
-- What reaches the encrypted file, and what a store opened on it reads back.
use mathlib.Core.Path.{subst}
use signal_bot_tee.Common.Exec.{bind_keeps, bind_ok}
use signal_bot_tee.Common.{
  ℕ, String, none, ◌≡◌, ◌∙◌, refl, sym, ap, true, some, ◌++◌, arith, ok, err, Option-cases, inl,
  inr,
}
use signal_bot_tee.Credits.Store.Data.Outcomes.{grant_once}
use signal_bot_tee.Credits.Types.{
  CreditBalance, duplicate_transaction, Deposit, UsageRecord, PaymentError,
}
use signal_bot_tee.Credits.Store.Data.{CreditStoreData, grant, spend}
use signal_bot_tee.Platform.Sealing.{IsSealed, sealed_opens}
use signal_bot_tee.Credits.Store.Platform.{Bytes, Platform, IsFaithful, KeepsFile}
use signal_bot_tee.Credits.Store.Persist.{
  CreditStore, unopened, key_derivation_path, derive_key, write_sealed, persist, decode, load,
  open_store, add_credits, deduct_credits,
}

module _ {W : Type 0} (p : Platform W) where
  -- A key that was derived is the cached one from then on.
  derive_key_caches :
      (s : CreditStore W) {key : Bytes}
      → (derive_key p s).0 ≡ ok key
      → (derive_key p s).1.cached_key ≡ some key
  unfolding derive_key
  derive_key_caches s h = ground arith

  store_data-derive_key : (s : CreditStore W) → (derive_key p s).1.store_data ≡ s.store_data
  unfolding derive_key
  store_data-derive_key s = ground arith

  store_data-write_sealed :
      (key : Bytes) (s : CreditStore W)
      → ((write_sealed p key s).1.store_data ≡ s.store_data)
        × ((write_sealed p key s).1.cached_key ≡ s.cached_key)
  unfolding write_sealed
  store_data-write_sealed key s = ground arith

  -- Persisting, also when it fails, leaves the data in memory as they were.
  pub store_data-persist : (s : CreditStore W) → (persist p s).1.store_data ≡ s.store_data
  unfolding persist
  store_data-persist s =
      bind_keeps (λ t. t.store_data) (derive_key p) (write_sealed p) s (store_data-derive_key s)
        (λ key t. (store_data-write_sealed key t).0)

  -- What `add_credits` leaves in memory is what the grant makes of the data, persisted or not.
  pub store_data-add_credits :
      (now : ℕ) (x : Deposit) (s : CreditStore W)
      → (add_credits p now x s).1.store_data ≡ (grant now x s.store_data).1
  unfolding add_credits
  store_data-add_credits now x s =
      ground (arith, store_data-persist (record s { store_data = (grant now x s.store_data).1 }))

  add_credits-refused :
      (now : ℕ) (x : Deposit) (s : CreditStore W) {e : PaymentError}
      → (grant now x s.store_data).0 ≡ err e
      → (add_credits p now x s).0 ≡ err e
  unfolding add_credits
  add_credits-refused now x s h = ground (arith, h)

  add_credits-unsaved :
      (now : ℕ) (x : Deposit) (s : CreditStore W) {b : CreditBalance} {e : PaymentError}
      → (grant now x s.store_data).0 ≡ ok b
      → (persist p (record s { store_data = (grant now x s.store_data).1 })).0 ≡ err e
      → (add_credits p now x s).0 ≡ err e
  unfolding add_credits
  add_credits-unsaved now x s granted unsaved = ground (arith, granted, unsaved)

  -- If a grant succeeds and persisting it fails, the caller of `add_credits` sees the error, and
  -- the grant is in memory all the same: any later `add_credits` of that transaction hash is refused
  -- as a duplicate.
  pub unsaved_grant :
      (now later : ℕ) (x y : Deposit) (s : CreditStore W) {b : CreditBalance} {e : PaymentError}
      → y.tx_hash ≡ x.tx_hash
      → (grant now x s.store_data).0 ≡ ok b
      → (persist p (record s { store_data = (grant now x s.store_data).1 })).0 ≡ err e
      → let (answer, t) = add_credits p now x s in
        (answer ≡ err e)
        × (t.store_data ≡ (grant now x s.store_data).1)
        × ((add_credits p later y t).0 ≡ err (duplicate_transaction x.tx_hash))
  unsaved_grant now later x y s same granted unsaved =
      let t = (add_credits p now x s).1 in
      let kept : t.store_data ≡ (grant now x s.store_data).1 = store_data-add_credits now x s in
      (
        add_credits-unsaved now x s granted unsaved,
        kept,
        add_credits-refused later y t
            (rw kept (ap (λ r. r.0) (grant_once now later x y s.store_data same))),
      )

  pub store_data-deduct_credits :
      (now : ℕ) (user : String) (credits : ℕ) (usage : UsageRecord) (s : CreditStore W)
      → (deduct_credits p now user credits usage s).1.store_data
        ≡ (spend now user credits usage s.store_data).1
  unfolding deduct_credits
  store_data-deduct_credits now user credits usage s = ground (
    arith,
    store_data-persist (record s { store_data = (spend now user credits usage s.store_data).1 }),
  )

module _ {W : Type 0} (p : Platform W) (laws : IsFaithful p) where
  write_sealed-IsSealed :
      (key : Bytes) (s : CreditStore W)
      → (write_sealed p key s).0 ≡ ok tt
      → IsSealed p key s.store_data (write_sealed p key s).1.world
  unfolding write_sealed
  write_sealed-IsSealed key s h = elim (Option-cases (p.serialize s.store_data)) [
    | inl bad ↦ absurd (ground arith)
    | inr (plain, e) ↦ elim (Option-cases (p.encrypt key (p.fill_nonce s.world).0 plain)) [
      | inl bad ↦ absurd (ground arith)
      | inr (cipher, c) ↦
          let file = (p.fill_nonce s.world).0 ++ cipher in
          let w = (p.create_parent (p.fill_nonce s.world).1).1 in
          let written : (p.write_temp file w).0 ≡ true = ground arith in
          let renamed : (p.rename_temp (p.write_temp file w).1).0 ≡ true = ground arith in
          let world : (write_sealed p key s).1.world ≡ (p.rename_temp (p.write_temp file w).1).1 =
            ground arith in
          record {
            nonce = (p.fill_nonce s.world).0;
            plain = plain;
            cipher = cipher;
            nonce_fits = laws.nonce_size s.world;
            serialized = e;
            encrypted = c;
            there = ground (arith, laws.renamed file w written renamed);
            contents = ground (arith, laws.renamed file w written renamed);
          }
    ]
  ]

  read-derive_key :
      (keeps : KeepsFile p) (s : CreditStore W)
      → (p.read_file (derive_key p s).1.world).0 ≡ (p.read_file s.world).0
  unfolding derive_key
  read-derive_key keeps s = ground (
    arith,
    keeps.by_key key_derivation_path s.world,
    keeps.by_info (p.derive_key key_derivation_path s.world).1,
  )

  -- What was sealed is what a store holds that is opened on it and derives the same key.
  open-IsSealed :
      (keeps : KeepsFile p) (key : Bytes) (d : CreditStoreData) (w : W)
      → ((plain : Bytes) → p.serialize d ≡ some plain → p.deserialize plain ≡ some d)
      → IsSealed p key d w
      → (derive_key p (unopened p none w)).0 ≡ ok key
      → let (r, t) = open_store p none w in (r ≡ ok tt) × (t.store_data ≡ d)
  unfolding open_store load decode
  open-IsSealed keeps key d w json sealed derived =
      let (long, first, rest, decrypted) = sealed_opens p laws sealed in
      let contents : (p.read_file (derive_key p (unopened p none w)).1.world).0
          ≡ some (sealed.nonce ++ sealed.cipher) =
        read-derive_key keeps (unopened p none w) ∙ sealed.contents in
      rw
        (
          sealed.there,
          derived,
          contents,
          long,
          first,
          rest,
          decrypted,
          json sealed.plain sealed.serialized,
        )
        (refl, refl)

  -- After a persist without error, a store that `CreditStore::new` opens on the file, deriving its key
  -- again, holds the data that were persisted, if the key is the one that the persist used; serde
  -- reads back what it wrote of the data, and the calls of the agent leave the file alone.
  pub open-persist :
      (keeps : KeepsFile p) (s : CreditStore W)
      → ((plain : Bytes)
          → p.serialize s.store_data ≡ some plain
          → p.deserialize plain ≡ some s.store_data)
      → (persist p s).0 ≡ ok tt
      → let w = (persist p s).1.world in
        (derive_key p (unopened p none w)).0 ≡ (derive_key p s).0
        → let (r, u) = open_store p none w in (r ≡ ok tt) × (u.store_data ≡ s.store_data)
  unfolding persist
  open-persist keeps s json h again =
      let (key, derived, same) = bind_ok (derive_key p) (write_sealed p) s h in
      let t = (derive_key p s).1 in
      let ended : (write_sealed p key t).0 ≡ ok tt = sym (ap (λ r. r.0) same) ∙ h in
      let sealed : IsSealed p key s.store_data (write_sealed p key t).1.world =
        subst (λ d. IsSealed p key d (write_sealed p key t).1.world) (store_data-derive_key p s)
          (write_sealed-IsSealed key t ended) in
      let world : (persist p s).1.world ≡ (write_sealed p key t).1.world =
        ap (λ r. r.1.world) same in
      open-IsSealed keeps key s.store_data (persist p s).1.world json
        (subst (IsSealed p key s.store_data) (sym world) sealed) (again ∙ derived)

  -- What was sealed is what a store opened with the same key holds.
  with_key-IsSealed :
      (key : Bytes) (d : CreditStoreData) (w : W)
      → ((plain : Bytes) → p.serialize d ≡ some plain → p.deserialize plain ≡ some d)
      → IsSealed p key d w
      → let (r, t) = open_store p (some key) w in (r ≡ ok tt) × (t.store_data ≡ d)
  unfolding open_store load derive_key decode
  with_key-IsSealed key d w json sealed =
      let (long, first, rest, decrypted) = sealed_opens p laws sealed in
      rw
        (
          sealed.there,
          sealed.contents,
          long,
          first,
          rest,
          decrypted,
          json sealed.plain sealed.serialized,
        )
        (refl, refl)

  -- The same of a store that is opened with the key in its cache, as `with_key` does
  pub with_key-persist :
      (s : CreditStore W)
      → ((plain : Bytes)
          → p.serialize s.store_data ≡ some plain
          → p.deserialize plain ≡ some s.store_data)
      → (persist p s).0 ≡ ok tt
      → let t = (persist p s).1 in
        let (r, u) = open_store p t.cached_key t.world in
        (r ≡ ok tt) × (u.store_data ≡ s.store_data)
  unfolding persist
  with_key-persist s json h =
      let (key, derived, same) = bind_ok (derive_key p) (write_sealed p) s h in
      let t = (derive_key p s).1 in
      let kept = store_data-write_sealed p key t in
      let cached : (write_sealed p key t).1.cached_key ≡ some key =
        kept.1 ∙ derive_key_caches p s derived in
      let ended : (write_sealed p key t).0 ≡ ok tt = sym (ap (λ r. r.0) same) ∙ h in
      let sealed : IsSealed p key s.store_data (write_sealed p key t).1.world =
        subst (λ d. IsSealed p key d (write_sealed p key t).1.world) (store_data-derive_key p s)
          (write_sealed-IsSealed key t ended) in
      rw (same, cached)
        (with_key-IsSealed key s.store_data (write_sealed p key t).1.world json sealed)
