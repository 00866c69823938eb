-- ===== src/Tests/Signal.antt =====
-- A connection over which two messages arrive, the second one when a refresh is due.
use signal_bot_tee.Common.{String, ◌≡◌, refl, false, none, some, [], ◌∷◌}
use signal_bot_tee.Chat.Types.{BotMessage}
use signal_bot_tee.Signal.Client.{IncomingMessage, from_incoming}
use signal_bot_tee.Signal.Receiver.{text, other_frame, frame_messages, bot_messages, read_frames}
use signal_bot_tee.Signal.Refreshing.{all_messages, read_frames-due}

abbrev incoming : String → IncomingMessage
incoming words = record {
  envelope = record {
    source = "u-1";
    source_number = none;
    data_message = some (record { message = some words; group_info = none });
  };
  account = "+14155551234";
}

abbrev received : String → BotMessage
received words = record {
  source = "u-1";
  source_number = none;
  text = words;
  is_group = false;
  group_id = none;
  receiving_account = "+14155551234";
}

read_frames-due_example :
    read_frames 1000 (
      (1200, text (some (incoming "hello")))
      ∷ (1210, other_frame)
      ∷ (1300, text (some (incoming "lost")))
      ∷ [])
    ≡ all_messages ((1200, text (some (incoming "hello"))) ∷ (1210, other_frame) ∷ [])
read_frames-due_example =
    read_frames-due 1000 1300 ((1200, text (some (incoming "hello"))) ∷ (1210, other_frame) ∷ [])
      (text (some (incoming "lost"))) [] (refl, refl, (refl, refl, tt)) refl

only_the_first :
    read_frames 1000
      ((1200, text (some (incoming "hello"))) ∷ (1300, text (some (incoming "lost"))) ∷ [])
    ≡ received "hello" ∷ []
unfolding read_frames frame_messages bot_messages from_incoming
only_the_first = refl
