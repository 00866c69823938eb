-- ===== src/Platform.antt =====
-- What the two encrypted files of the program rest on, crates/x402-payments/src/credits/store.rs and
-- crates/signal-registration-proxy/src/registry/encrypted.rs: the TEE agent, SHA-256, AES-GCM,
-- serde_json, the random source and the file system. `W` is the state of all that, and `D` the data
-- of the file; a call returns its answer and the next `W`, and `none` or `false` is its error.
pub mod Sealing
use signal_bot_tee.Common.{ℕ, String, ◌≡◌, Bool, true, Option, some, List, length}

abbrev pub Bytes : Type 0
Bytes = List ℕ

pub record AppInfo : Type 0 where
  pub compose_hash : Option String
  pub app_id : Option String

pub record TeeStorage (W D : Type 0) : Type 0 where
  -- `DstackClient::derive_key`, `DstackClient::get_app_info`
  pub derive_key : String → W → Option Bytes × W
  pub app_info : W → Option AppInfo × W
  pub as_bytes : String → Bytes
  pub sha256 : Bytes → Bytes
  pub fill_nonce : W → Bytes × W
  -- `serde_json::to_vec`, `serde_json::from_slice`
  pub serialize : D → Option Bytes
  pub deserialize : Bytes → Option D
  -- `cipher.encrypt(nonce, plaintext)` and `cipher.decrypt(nonce, ciphertext)` under a key
  pub encrypt : Bytes → Bytes → Bytes → Option Bytes
  pub decrypt : Bytes → Bytes → Bytes → Option Bytes
  -- the storage file, its parent directory and its temporary sibling
  pub exists : W → Bool
  pub read_file : W → Option Bytes × W
  pub create_parent : W → Bool × W
  pub write_temp : Bytes → W → Bool × W
  pub rename_temp : W → Bool × W

-- Documented behaviour that a round trip through the file relies on: a nonce has twelve bytes,
-- decryption undoes encryption under the same key and nonce, and a file that was written and
-- renamed is there with its contents.
pub record IsFaithful {W D : Type 0} (p : TeeStorage W D) : Type 0 where
  pub nonce_size : (w : W) → length (p.fill_nonce w).0 ≡ 12
  pub decrypts :
      (key nonce plain : Bytes) {cipher : Bytes}
      → p.encrypt key nonce plain ≡ some cipher
      → p.decrypt key nonce cipher ≡ some plain
  pub renamed :
      (contents : Bytes) (w : W)
      → (p.write_temp contents w).0 ≡ true
      → (p.rename_temp (p.write_temp contents w).1).0 ≡ true
      → let w' = (p.rename_temp (p.write_temp contents w).1).1 in
        (p.exists w' ≡ true) × ((p.read_file w').0 ≡ some contents)

-- Documented behaviour of the agent: its calls leave the file alone.
pub record KeepsFile {W D : Type 0} (p : TeeStorage W D) : Type 0 where
  pub by_key : (path : String) (w : W) → (p.read_file (p.derive_key path w).1).0 ≡ (p.read_file w).0
  pub by_info : (w : W) → (p.read_file (p.app_info w).1).0 ≡ (p.read_file w).0
