-- ===== src/Registration/Listing.antt =====
-- crates/signal-registration-proxy/src/api/handlers.rs: the two listings, list_accounts and the public
-- list_bots, which asks the Signal client for the identity of each verified number.
pub mod Blocking
use Prim.Native.String.{String}
use signal_bot_tee.Common.{
  ℕ, text_append, ◌≡◌, refl, Bool, true, false, ◌&&◌, Option, none, some, List, [], ◌∷◌, map,
  Result, ok, err, leb, ltb, not, keep_if, length, if◌then◌else◌, unwrap_or, arith,
}
use signal_bot_tee.Common.Text.{byte_length, slice, is_cut}
use signal_bot_tee.Common.TextLines.{lines}
use signal_bot_tee.Registration.Phone.{digits_of}
use signal_bot_tee.Registration.Registry
use signal_bot_tee.Registration.Registry.{
  Registry, PhoneNumberRecord, RegistrationStatus, verified, same_status,
}
use signal_bot_tee.Registration.Outside.{Call, ProxyError}

-- `api::types::AccountInfo`; `rfc3339` writes a time.
pub record AccountInfo : Type 0 where
  pub phone_number : String
  pub status : RegistrationStatus
  pub registered_at : String
  pub model : Option String
  pub system_prompt : Option String
  pub username : Option String

unfoldable pub account_of : (ℕ → String) → PhoneNumberRecord → AccountInfo
account_of rfc3339 r = record {
  phone_number = r.phone_number;
  status = r.status;
  registered_at = rfc3339 r.registered_at;
  model = r.model;
  system_prompt = r.system_prompt;
  username = r.username;
}

-- The accounts and their number
unfoldable pub list_accounts : (ℕ → String) → Registry → List AccountInfo × ℕ
unfolding account_of Registry.list_all
list_accounts rfc3339 reg =
    let accounts = map (account_of rfc3339) (Registry.list_all reg) in (accounts, length accounts)

pub record BotInfo : Type 0 where
  pub username : String
  pub phone_number : String
  pub signal_link : String
  pub registered_at : String
  pub model : Option String
  pub description : Option String
  pub system_prompt : Option String
  pub identity_key : Option String

-- Whether `&line[..100]` is taken inside a character.
unfoldable pub cuts_character : String → Bool
unfolding is_cut
cuts_character line = ltb 100 (byte_length line) && is_cut 100 line

-- The description that a first line gives; `none` is a panic.
unfoldable pub describe : String → Option String
unfolding cuts_character
describe line =
    if cuts_character line
    then none
    else some (if ltb 100 (byte_length line) then text_append (slice line 0 100) "..." else line)

abbrev pub first_of : List String → Option String
first_of [] = none
first_of (l ∷ ls) = some l

-- `p.lines().next()` of a system prompt
unfoldable pub first_line : Option String → Option String
unfolding lines
first_line none = none
first_line (some prompt) = first_of (lines prompt)

-- The description of a bot: `none` is a panic, and `some none` no description.
unfoldable pub description_of : Option String → Option (Option String)
unfolding describe
description_of none = some none
description_of (some line) = elim (describe line) [ none ↦ none | some d ↦ some (some d) ]

abbrev pub identity_key : Result ProxyError (Option String) → Option String
identity_key (ok number) = number
identity_key (err e) = none

-- `get_identity` gives the safety number of an identity that it finds.
module _ {W : Type 0} (rfc3339 : ℕ → String) (get_identity : String → Call W (Option String)) where
  unfoldable pub bot_of : PhoneNumberRecord → Option String → Option String → BotInfo
  unfolding digits_of
  bot_of r description key = record {
    username = unwrap_or r.username r.phone_number;
    phone_number = r.phone_number;
    signal_link = text_append "https://signal.me/#p/+" (digits_of r.phone_number);
    registered_at = rfc3339 r.registered_at;
    model = r.model;
    description = description;
    system_prompt = r.system_prompt;
    identity_key = key;
  }

  abbrev pub push_bot : BotInfo → Option (List BotInfo) × W → Option (List BotInfo) × W
  push_bot b (none, w) = (none, w)
  push_bot b (some bots, w) = (some (b ∷ bots), w)

  -- The loop over the verified records; `none` is a panic.
  unfoldable pub list_each : List PhoneNumberRecord → W → Option (List BotInfo) × W
  unfolding bot_of description_of first_line
  list_each [] w = (some [], w)
  list_each (r ∷ rs) w = elim (description_of (first_line r.system_prompt)) [
    | none ↦ (none, w)
    | some description ↦
        let (key, w') = get_identity r.phone_number w in
        push_bot (bot_of r description (identity_key key)) (list_each rs w')
  ]

  unfoldable pub list_bots : Registry → W → Option (List BotInfo) × W
  unfolding list_each Registry.list_all
  list_bots reg w =
      list_each (keep_if (λ r. same_status r.status verified) (Registry.list_all reg)) w
