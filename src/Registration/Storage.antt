-- ===== src/Registration/Storage.antt =====
-- crates/signal-registration-proxy/src/registry/encrypted.rs: the encrypted file of the registry, and
-- the start of main.rs that loads it. The text of an error is a word for its place.
pub mod Restart
use signal_bot_tee.Common.{
  ℕ, String, Bool, true, false, Option, none, some, List, ◌++◌, ltb, unwrap_or, length, take, drop,
  if◌then◌else◌, Result, ok, err,
}
use signal_bot_tee.Common.Exec.{Exec, pure, raise, ◌>>=◌, ◌>>◌}
use signal_bot_tee.Platform.{Bytes, AppInfo, TeeStorage}
use signal_bot_tee.Registration.Registry.{Registry, empty_registry}
use signal_bot_tee.Registration.Outside.{ProxyError, Call, encryption, storage, internal}

abbrev pub key_derivation_path : String
key_derivation_path = "signal-registration-proxy/registry"

abbrev pub nonce_size : ℕ
nonce_size = 12

module _ {W : Type 0} where
  -- A call to the outside that can fail
  abbrev pub outside : {A : Type 0} → (W → Option A × W) → ProxyError → Call W A
  outside call e w = let (r, w') = call w in (elim r [ none ↦ err e | some a ↦ ok a ], w')

  abbrev pub attempt : (W → Bool × W) → ProxyError → Call W (Unit {0})
  attempt call e w = let (done, w') = call w in (if done then ok tt else err e, w')

  abbrev pub or_fail : {A : Type 0} → Option A → ProxyError → Call W A
  or_fail none e = raise e
  or_fail (some a) e = pure a

-- `EncryptedStore`: its cached key, if it was made by `with_key`
pub record EncryptedStore (W : Type 0) : Type 0 where
  pub outside_of : TeeStorage W Registry
  pub cached_key : Option Bytes

module _ {W : Type 0} (s : EncryptedStore W) where
  open s use {outside_of, cached_key}

  -- The fallback of `derive_key`: SHA-256 of compose hash, app id and path
  unfoldable pub app_info_key : AppInfo → Bytes
  app_info_key info = outside_of.sha256 (
      outside_of.as_bytes (unwrap_or info.compose_hash "unknown")
      ++ outside_of.as_bytes (unwrap_or info.app_id "unknown")
      ++ outside_of.as_bytes key_derivation_path)

  unfoldable pub key_from_endpoint : Option Bytes → Call W Bytes
  unfolding app_info_key
  key_from_endpoint (some key_bytes) =
      if ltb (length key_bytes) 32 then raise (encryption "short key") else pure (take 32 key_bytes)
  key_from_endpoint none = do
    info ← outside outside_of.app_info (encryption "app info")
    pure (app_info_key info)

  unfoldable pub key_from_cache : Option Bytes → Call W Bytes
  unfolding key_from_endpoint
  key_from_cache (some key) w = (ok key, w)
  key_from_cache none w =
      let (r, w') = outside_of.derive_key key_derivation_path w in key_from_endpoint r w'

  -- Nothing is cached: each save and each load derives the key again.
  unfoldable pub derive_key : Call W Bytes
  unfolding key_from_cache
  derive_key w = key_from_cache cached_key w

  unfoldable pub write_sealed : Registry → Bytes → Call W (Unit {0})
  write_sealed registry key = do
    nonce ← (λ w. let (nonce, w') = outside_of.fill_nonce w in (ok nonce, w'))
    plaintext ← or_fail (outside_of.serialize registry) (storage "serialize")
    ciphertext ← or_fail (outside_of.encrypt key nonce plaintext) (encryption "encrypt")
    attempt outside_of.create_parent (storage "directory")
    attempt (outside_of.write_temp (nonce ++ ciphertext)) (storage "write")
    attempt outside_of.rename_temp (storage "rename")

  -- `EncryptedStore::save`
  unfoldable pub save_encrypted : Registry → Call W (Unit {0})
  unfolding derive_key write_sealed
  save_encrypted registry = do key ← derive_key; write_sealed registry key

  unfoldable pub decode : Bytes → Bytes → Call W Registry
  decode key contents = if ltb (length contents) nonce_size then pure empty_registry else do
    plaintext ←
        or_fail (outside_of.decrypt key (take nonce_size contents) (drop nonce_size contents))
          (encryption "decrypt")
    or_fail (outside_of.deserialize plaintext) (storage "deserialize")

  -- `EncryptedStore::load`
  unfoldable pub load_encrypted : Call W Registry
  unfolding derive_key decode
  load_encrypted w =
      if outside_of.exists w
      then (do
        key ← derive_key
        contents ← outside outside_of.read_file (storage "read")
        decode key contents)
          w
      else (ok empty_registry, w)

-- `Store`; a memory store keeps nothing.
pub data Store (W : Type 0) : Type 0 where
  encrypted : EncryptedStore W → Store W
  memory : Store W

abbrev pub or_empty : Result ProxyError Registry → Registry
or_empty (ok registry) = registry
or_empty (err e) = empty_registry

module _ {W : Type 0} where
  -- `Store::save`, which the handlers call
  unfoldable pub save : Store W → Registry → Call W (Unit {0})
  unfolding save_encrypted
  save (encrypted s) registry w = save_encrypted s registry w
  save memory registry w = (ok tt, w)

  -- `Store::load`
  unfoldable pub load : Store W → Call W Registry
  unfolding load_encrypted
  load (encrypted s) w = load_encrypted s w
  load memory w = (ok empty_registry, w)

  -- What main.rs starts with: a file that cannot be loaded counts as an empty one.
  unfoldable pub starting_registry : Store W → W → Registry × W
  unfolding load
  starting_registry s w = let (r, w') = load s w in (or_empty r, w')
