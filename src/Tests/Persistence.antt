-- ===== src/Tests/Persistence.antt =====
-- A platform with a two-file disk, and the credit store on it.
use signal_bot_tee.Common.{
  ◌≡◌, refl, true, false, Bool, Option, none, some, [], ◌∷◌, arith, ok, err, is_some, drop,
}
use signal_bot_tee.Common.Table
use signal_bot_tee.Common.StringSet
use signal_bot_tee.Credits.Types.{
  Deposit, storage, duplicate_transaction, add_to_balance, new_balance,
}
use signal_bot_tee.Credits.Store.Data.{empty_data, grant}
use signal_bot_tee.Credits.Store.Platform.{Bytes, Platform, IsFaithful, KeepsFile}
use signal_bot_tee.Credits.Store.Persist.{
  CreditStore, persist, write_sealed, derive_key, open_store, add_credits,
}
use signal_bot_tee.Credits.Store.Persist.RoundTrip.{open-persist, unsaved_grant}
use signal_bot_tee.Tests.Credits.{alice, deposit_a, funded}

pub record Disk : Type 0 where
  pub temporary : Option Bytes
  pub file : Option Bytes
  pub writable : Bool

abbrev nonce_bytes : Bytes
nonce_bytes = 1 ∷ 2 ∷ 3 ∷ 4 ∷ 5 ∷ 6 ∷ 7 ∷ 8 ∷ 9 ∷ 10 ∷ 11 ∷ 12 ∷ []

-- The agent has no `DeriveKey`; a cipher puts a tag before the text; serde is told the one value
-- that the test stores.
abbrev pub small_platform : Platform Disk
small_platform = record {
  derive_key = λ path w. (none, w);
  app_info = λ w. (some (record { compose_hash = none; app_id = some "app" }), w);
  as_bytes = λ s. [];
  sha256 = λ b. 7 ∷ b;
  fill_nonce = λ w. (nonce_bytes, w);
  serialize = λ d. some (123 ∷ 125 ∷ []);
  deserialize = λ b. some funded;
  encrypt = λ key nonce plain. some (99 ∷ plain);
  decrypt = λ key nonce cipher. some (drop 1 cipher);
  exists = λ w. is_some w.file;
  read_file = λ w. (w.file, w);
  create_parent = λ w. (true, w);
  write_temp = λ b w. (w.writable, record w { temporary = some b });
  rename_temp = λ w. (true, record w { file = w.temporary });
}

small_platform-IsFaithful : IsFaithful small_platform
small_platform-IsFaithful = record {
  nonce_size = λ w. refl;
  decrypts = λ key nonce plain {cipher} h. ground arith;
  renamed = λ b w h k. (refl, refl);
}

small_platform-KeepsFile : KeepsFile small_platform
small_platform-KeepsFile = record { by_key = λ path w. refl; by_info = λ w. refl }

abbrev pub store : CreditStore Disk
store = record {
  store_data = funded;
  cached_key = none;
  world = record { temporary = none; file = none; writable = true };
}

store_persists : (persist small_platform store).0 ≡ ok tt
unfolding persist derive_key write_sealed
store_persists = refl

open-persist_example :
    let (r, u) = open_store small_platform none (persist small_platform store).1.world in
    (r ≡ ok tt) × (u.store_data ≡ funded)
unfolding persist derive_key write_sealed
open-persist_example =
    open-persist small_platform small_platform-IsFaithful small_platform-KeepsFile store
      (λ plain h. refl) store_persists refl

abbrev full_disk : CreditStore Disk
full_disk = record store {
  store_data = empty_data;
  world = record { temporary = none; file = none; writable = false };
}

abbrev retried : Deposit
retried = record deposit_a { id = "d1-retried" }

deposit_a-unsaved :
    (persist small_platform (record full_disk { store_data = (grant 5 deposit_a empty_data).1 })).0
    ≡ err storage
unfolding persist derive_key write_sealed
deposit_a-unsaved = refl

deposit_a-granted :
    (grant 5 deposit_a empty_data).0 ≡ ok (add_to_balance 5 1000000 (new_balance 5 alice))
unfolding grant Table.get StringSet.contains
deposit_a-granted = refl

unsaved_grant_example :
    let (answer, t) = add_credits small_platform 5 deposit_a full_disk in
    (answer ≡ err storage)
    × (t.store_data ≡ (grant 5 deposit_a empty_data).1)
    × ((add_credits small_platform 9 retried t).0 ≡ err (duplicate_transaction "0xabc"))
unsaved_grant_example =
    unsaved_grant small_platform 5 9 deposit_a retried full_disk refl deposit_a-granted
      deposit_a-unsaved
