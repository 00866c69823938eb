-- ===== src/Tests/Dispatch.antt =====
-- The running bot on three messages about a used car.
use signal_bot_tee.Common.{ℕ, ◌≡◌, ◌⊎◌, refl, true, false, some, none, [], ◌∷◌, List}
use signal_bot_tee.Common.IdTable
use signal_bot_tee.Common.Text.{has_prefix}
use signal_bot_tee.Chat.Types.{BotMessage}
use signal_bot_tee.Negotiation.Types.{Negotiation, waiting_for_offers, is_sender}
use signal_bot_tee.Negotiation.Store.{new_store}
use signal_bot_tee.Negotiation.Store.Sealed.{IsSealed}
use signal_bot_tee.Dispatch.{Running, Loop, receive, receive_all}
use signal_bot_tee.Dispatch.Commands.{IsFree, receive_separates}
use signal_bot_tee.Dispatch.Sealing.{receive_all-IsSealed}
use signal_bot_tee.Tests.Chat.{services, handler, bot}
use signal_bot_tee.Tests.Negotiation.{whole_amounts, says, agreed}
use signal_bot_tee.Tests.Persistence.{Disk, small_platform}

abbrev loop : Loop Disk ℕ
loop = record {
  storage = small_platform;
  services = services;
  chat_handler = handler;
  float = whole_amounts;
  payments_enabled = true;
  translation = none;
  to_lowercase = λ s. s;
  answer = λ kind m w. w;
  reply = λ m w. w;
}

abbrev proposing_message : BotMessage
proposing_message = says "seller-uuid" none "!negotiate +14155551234 used car"

abbrev messages : List BotMessage
messages =
    proposing_message
    ∷ says "seller-uuid" none "!offer 1 $1,000"
    ∷ says "buyer-uuid" (some "+14155551234") "!offer 1 1200"
    ∷ []

abbrev started : Running Disk ℕ
started = record { bot = bot; negotiations = new_store }

abbrev settled : Negotiation ℕ
settled = record agreed { created_at = 1000; resolved_at = some 1000 }

abbrev ended : Running Disk ℕ
ended = record {
  bot = bot;
  negotiations = record { negotiations = (1, settled) ∷ []; next_id = 2 };
}

messages_received : receive_all loop messages started ≡ some ended
unfolding receive_all IdTable.get IdTable.put is_sender whole_amounts
messages_received = refl

receive_all-IsSealed_example : IsSealed whole_amounts settled
unfolding IdTable.get
receive_all-IsSealed_example =
    receive_all-IsSealed loop messages started ended 1 refl messages_received refl

abbrev proposed : Running Disk ℕ
proposed = record {
  bot = bot;
  negotiations = record {
    negotiations =
        (
          1,
          record settled {
            initiator_offer = none;
            counterparty_offer = none;
            deal_price = none;
            status = waiting_for_offers;
            resolved_at = none;
          },
        )
        ∷ [];
    next_id = 2;
  };
}

proposal_received : receive loop proposing_message started ≡ some proposed
unfolding receive IdTable.put
proposal_received = refl

receive_separates_example :
    ((has_prefix "!" proposing_message.text ≡ true)
      × IsFree loop proposing_message started proposed)
    ⊎ ((has_prefix "!" proposing_message.text ≡ false)
        × (proposed.negotiations ≡ started.negotiations))
receive_separates_example =
    receive_separates loop proposing_message started proposed proposal_received
