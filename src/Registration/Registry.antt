-- ===== src/Registration/Registry.antt =====
-- crates/signal-registration-proxy/src/registry: the record of a phone number and the in-memory
-- registry. `hash` stands for SHA-256 in hexadecimal, `hash_secret`.
use signal_bot_tee.Common.{
  ℕ, String, Bool, true, false, Option, none, some, List, [], length, keep_if, is_some, str_eq,
  if◌then◌else◌,
}
use mathlib.Core.Option
use signal_bot_tee.Common.Table
use signal_bot_tee.Common.Table.{Table}

pub data RegistrationStatus : Type 0 where
  pending verified failed : RegistrationStatus

-- `==` of the derived `PartialEq`
abbrev pub same_status : RegistrationStatus → RegistrationStatus → Bool
same_status pending pending = true
same_status verified verified = true
same_status failed failed = true
same_status _ _ = false

pub record PhoneNumberRecord : Type 0 where
  pub phone_number : String
  pub registered_at : ℕ
  pub status : RegistrationStatus
  pub ownership_proof_hash : Option String
  pub model : Option String
  pub system_prompt : Option String
  pub username : Option String

-- `PhoneNumberRecord::new_pending`
unfoldable pub new_record :
    (String → String)
    → ℕ
    → String
    → Option String
    → Option String
    → Option String
    → PhoneNumberRecord
new_record hash now phone_number ownership_secret model system_prompt = record {
  phone_number = phone_number;
  registered_at = now;
  status = pending;
  ownership_proof_hash = Option.map hash ownership_secret;
  model = model;
  system_prompt = system_prompt;
  username = none;
}

-- A field that the request leaves out keeps its value.
unfoldable pub update_config : Option String → Option String → PhoneNumberRecord → PhoneNumberRecord
update_config model system_prompt r = record r {
  model = if is_some model then model else r.model;
  system_prompt = if is_some system_prompt then system_prompt else r.system_prompt;
}

unfoldable pub set_username : Option String → PhoneNumberRecord → PhoneNumberRecord
set_username username r = record r { username = username }

-- The `match` of `verify_ownership`
unfoldable pub proof_matches : (String → String) → Option String → Option String → Bool
proof_matches hash none none = true
proof_matches hash none (some _) = true
proof_matches hash (some _) none = false
proof_matches hash (some stored) (some provided) = str_eq (hash provided) stored

unfoldable pub verify_ownership : (String → String) → Option String → PhoneNumberRecord → Bool
unfolding proof_matches
verify_ownership hash secret r = proof_matches hash r.ownership_proof_hash secret

unfoldable pub mark_verified : PhoneNumberRecord → PhoneNumberRecord
mark_verified r = record r { status = verified }

unfoldable pub mark_failed : PhoneNumberRecord → PhoneNumberRecord
mark_failed r = record r { status = failed }

pub record Registry : Type 0 where
  pub records : Table PhoneNumberRecord

abbrev pub empty_registry : Registry
empty_registry = record { records = [] }

unfoldable pub get : String → Registry → Option PhoneNumberRecord
get phone_number reg = Table.get phone_number reg.records

unfoldable pub insert : String → PhoneNumberRecord → Registry → Registry
insert phone_number r reg = record { records = Table.put phone_number r reg.records }

unfoldable pub remove : String → Registry → Registry
remove phone_number reg = record { records = Table.remove phone_number reg.records }

abbrev pub change_found :
    String
    → (PhoneNumberRecord → PhoneNumberRecord)
    → Option PhoneNumberRecord
    → Registry
    → Registry
change_found phone_number f none reg = reg
change_found phone_number f (some r) reg = record {
  records = Table.put phone_number (f r) reg.records;
}

-- `if let Some(record) = registry.get_mut(&number) { f(record) }`
unfoldable pub with_mut : String → (PhoneNumberRecord → PhoneNumberRecord) → Registry → Registry
with_mut phone_number f reg = change_found phone_number f (Table.get phone_number reg.records) reg

abbrev pub has_status : RegistrationStatus → Option PhoneNumberRecord → Bool
has_status s none = false
has_status s (some r) = same_status r.status s

unfoldable pub is_registered : String → Registry → Bool
is_registered phone_number reg = has_status verified (Table.get phone_number reg.records)

unfoldable pub is_pending : String → Registry → Bool
is_pending phone_number reg = has_status pending (Table.get phone_number reg.records)

unfoldable pub list_all : Registry → List PhoneNumberRecord
list_all reg = Table.values reg.records

unfoldable pub list_registered : Registry → List PhoneNumberRecord
list_registered reg = keep_if (λ r. same_status r.status verified) (Table.values reg.records)

unfoldable pub count : Registry → ℕ
count reg = length reg.records

unfoldable pub count_verified : Registry → ℕ
count_verified reg =
    length (keep_if (λ r. same_status r.status verified) (Table.values reg.records))
