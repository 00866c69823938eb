-- ===== src/Tests/Storage.antt =====
-- The registry's encrypted file on a small disk.
use signal_bot_tee.Common.{some, none, [], ◌∷◌}
use signal_bot_tee.Platform.{TeeStorage}
use signal_bot_tee.Registration.Registry.{Registry, verified}
use signal_bot_tee.Registration.Storage.{EncryptedStore, derive_key}
use signal_bot_tee.Tests.Persistence.{Disk, small_platform}

abbrev one_number : Registry
one_number = record {
  records =
      (
        "+14155551234",
        record {
          phone_number = "+14155551234";
          registered_at = 5;
          status = verified;
          ownership_proof_hash = some "5e88";
          model = none;
          system_prompt = none;
          username = none;
        },
      )
      ∷ [];
}

-- serde is told the one registry that is stored here.
abbrev disk : TeeStorage Disk Registry
disk = record {
  derive_key = small_platform.derive_key;
  app_info = small_platform.app_info;
  as_bytes = small_platform.as_bytes;
  sha256 = small_platform.sha256;
  fill_nonce = small_platform.fill_nonce;
  serialize = λ r. some (123 ∷ 125 ∷ []);
  deserialize = λ b. some one_number;
  encrypt = small_platform.encrypt;
  decrypt = small_platform.decrypt;
  exists = small_platform.exists;
  read_file = small_platform.read_file;
  create_parent = small_platform.create_parent;
  write_temp = small_platform.write_temp;
  rename_temp = small_platform.rename_temp;
}

abbrev on_disk : EncryptedStore Disk
on_disk = record { outside_of = disk; cached_key = none }
