-- ===== src/Tests/Listing.antt =====
-- A bot whose prompt has a first line of 101 bytes, byte 100 of which is inside its last character.
use signal_bot_tee.Common.{ℕ, String, ◌≡◌, refl, Option, none, some, ok}
use signal_bot_tee.Common.Table
use signal_bot_tee.Registration.Phone.{
  digits_of, normalize_phone_number, text_length, is_ascii_digit, has_plus,
}
use signal_bot_tee.Registration.Registry
use signal_bot_tee.Registration.Registry.{verify_ownership, update_config}
use signal_bot_tee.Registration.Outside.{Call}
use signal_bot_tee.Registration.Requests.{UpdateBotConfigRequest, BotConfigResponse}
use signal_bot_tee.Registration.Handlers.Bots.{update_bot_config, owner_check, update_config_commit}
use signal_bot_tee.Registration.Listing.{list_bots, cuts_character, first_line}
use signal_bot_tee.Registration.Listing.Blocking.{IsBlocking, list_bots-blocked_by}
use signal_bot_tee.Tests.Registration.{agreeing, bot, with_record, number, normal}

abbrev long_line : String
long_line =
    "aaaaaaaaaaaaaaaaaaaaaaaaaaaaaaaaaaaaaaaaaaaaaaaaaaaaaaaaaaaaaaaaaaaaaaaaaaaaaaaaaaaaaaaaaaaaaaaaaaaé"

abbrev request : UpdateBotConfigRequest
request = record {
  ownership_secret = some "secret";
  model = none;
  system_prompt =
      some
        "aaaaaaaaaaaaaaaaaaaaaaaaaaaaaaaaaaaaaaaaaaaaaaaaaaaaaaaaaaaaaaaaaaaaaaaaaaaaaaaaaaaaaaaaaaaaaaaaaaaé\nBe kind.";
}

abbrev no_identity : String → Call ℕ (Option String)
no_identity n w = (ok none, w)

long_line-IsBlocking : IsBlocking request.system_prompt
unfolding first_line cuts_character
long_line-IsBlocking = (long_line, refl, refl)

abbrev accepted : BotConfigResponse
accepted = record {
  phone_number = number;
  model = none;
  system_prompt = request.system_prompt;
  message = "Bot configuration updated successfully.";
}

list_bots-blocked_by_example :
    (list_bots
      (λ t. "")
      no_identity
      (update_bot_config agreeing "1 (415) 555-1234" request (with_record bot)).1.registry
      9).0
    ≡ none
unfolding update_bot_config owner_check update_config_commit Registry.get Registry.insert Table.get
    Table.put verify_ownership update_config normalize_phone_number text_length digits_of
    is_ascii_digit has_plus
list_bots-blocked_by_example =
    list_bots-blocked_by (λ t. "") no_identity agreeing number "1 (415) 555-1234" request
      (with_record bot) 9 {answer = accepted} normal refl long_line-IsBlocking
