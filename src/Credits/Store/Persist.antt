-- ===== src/Credits/Store/Persist.antt =====
-- crates/x402-payments/src/credits/store.rs: key derivation, the encrypted file, and the two
-- operations that persist what they did.
pub mod RoundTrip
use signal_bot_tee.Common.{
  ℕ, String, Bool, true, false, Option, none, some, List, ◌++◌, ltb, unwrap_or, length, take, drop,
  if◌then◌else◌, Result, ok, err,
}
use signal_bot_tee.Common.Exec.{Exec, pure, raise, ◌>>=◌, ◌>>◌}
use signal_bot_tee.Credits.Types.{
  CreditBalance, Deposit, UsageRecord, PaymentError, encryption, storage, serialization,
}
use signal_bot_tee.Credits.Store.Data.{CreditStoreData, empty_data, grant, spend}
use signal_bot_tee.Credits.Store.Platform.{Bytes, AppInfo, Platform}

pub record CreditStore (W : Type 0) : Type 0 where
  pub store_data : CreditStoreData
  pub cached_key : Option Bytes
  pub world : W

abbrev pub key_derivation_path : String
key_derivation_path = "x402-payments/credit-store"

abbrev pub nonce_size : ℕ
nonce_size = 12

abbrev pub Action : Type 0 → Type 0 → Type 0
Action W A = Exec (CreditStore W) PaymentError A

module _ {W : Type 0} where
  -- A call to the outside that can fail.
  abbrev pub outside : {A : Type 0} → (W → Option A × W) → PaymentError → Action W A
  outside call e s =
      let (r, w) = call s.world in (elim r [ none ↦ err e | some a ↦ ok a ], record s { world = w })

  abbrev pub attempt : (W → Bool × W) → PaymentError → Action W (Unit {0})
  attempt call e s =
      let (done, w) = call s.world in (if done then ok tt else err e, record s { world = w })

  abbrev pub cache_key : Bytes → Action W Bytes
  cache_key key s = (ok key, record s { cached_key = some key })

  -- The block that holds the write lock.
  abbrev pub locked :
      (CreditStoreData → Result PaymentError CreditBalance × CreditStoreData)
      → Action W CreditBalance
  locked block s = let (r, d) = block s.store_data in (r, record s { store_data = d })

module _ {W : Type 0} (p : Platform W) where
  -- The fallback of `derive_key`: SHA-256 of compose hash, app id and path.
  unfoldable pub app_info_key : AppInfo → Bytes
  app_info_key info = p.sha256 (
      p.as_bytes (unwrap_or info.compose_hash "unknown")
      ++ p.as_bytes (unwrap_or info.app_id "unknown")
      ++ p.as_bytes key_derivation_path)

  unfoldable pub key_from_endpoint : Option Bytes → Action W Bytes
  unfolding app_info_key
  key_from_endpoint (some key_bytes) =
      if ltb (length key_bytes) 32 then raise encryption else cache_key (take 32 key_bytes)
  key_from_endpoint none = do info ← outside p.app_info encryption; cache_key (app_info_key info)

  unfoldable pub key_from_cache : Option Bytes → Action W Bytes
  unfolding key_from_endpoint
  key_from_cache (some key) s = (ok key, s)
  key_from_cache none s =
      let (r, w) = p.derive_key key_derivation_path s.world in
      key_from_endpoint r (record s { world = w })

  unfoldable pub derive_key : Action W Bytes
  unfolding key_from_cache
  derive_key s = key_from_cache s.cached_key s

  abbrev pub or_fail : {A : Type 0} → Option A → PaymentError → Action W A
  or_fail none e = raise e
  or_fail (some a) e = pure a

  abbrev fill_nonce : Action W Bytes
  fill_nonce s = let (nonce, w) = p.fill_nonce s.world in (ok nonce, record s { world = w })

  -- `CreditStore::persist`, after the key: a fresh nonce, and the file by way of a temporary one.
  unfoldable pub write_sealed : Bytes → Action W (Unit {0})
  write_sealed key = do
    nonce ← fill_nonce
    plain ← (λ s. or_fail (p.serialize s.store_data) serialization s)
    cipher ← or_fail (p.encrypt key nonce plain) encryption
    attempt p.create_parent storage
    attempt (p.write_temp (nonce ++ cipher)) storage
    attempt p.rename_temp storage

  -- `CreditStore::persist`
  unfoldable pub persist : Action W (Unit {0})
  persist = do key ← derive_key; write_sealed key

  abbrev replace_data : CreditStoreData → Action W (Unit {0})
  replace_data d s = (ok tt, record s { store_data = d })

  unfoldable pub decode : Bytes → Bytes → Action W (Unit {0})
  decode key encrypted = if ltb (length encrypted) nonce_size then pure tt else do
    plain ←
        or_fail (p.decrypt key (take nonce_size encrypted) (drop nonce_size encrypted)) encryption
    loaded ← or_fail (p.deserialize plain) serialization
    replace_data loaded

  -- `CreditStore::load`
  unfoldable pub load : Action W (Unit {0})
  unfolding derive_key decode
  load s =
      if p.exists s.world
      then (do key ← derive_key; encrypted ← outside p.read_file storage; decode key encrypted) s
      else (ok tt, s)

  abbrev pub unopened : Option Bytes → W → CreditStore W
  unopened key w = record { store_data = empty_data; cached_key = key; world = w }

  -- `CreditStore::new`, which has no key yet, and `CreditStore::with_key`
  unfoldable pub open_store : Option Bytes → W → Result PaymentError (Unit {0}) × CreditStore W
  unfolding load
  open_store key w = load (unopened key w)

  -- `CreditStore::add_credits`
  unfoldable pub add_credits : ℕ → Deposit → Action W CreditBalance
  add_credits now deposit = do balance ← locked (grant now deposit); persist; pure balance

  -- `CreditStore::deduct_credits`
  unfoldable pub deduct_credits : ℕ → String → ℕ → UsageRecord → Action W CreditBalance
  deduct_credits now user_id credits usage = do
    balance ← locked (spend now user_id credits usage)
    persist
    pure balance
