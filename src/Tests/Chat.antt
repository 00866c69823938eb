-- ===== src/Tests/Chat.antt =====
-- A model that uses a tool once and then answers, for a user with a dollar of credit.
use signal_bot_tee.Common.{
  false, ◌≡◌, ◌≢◌, true, Bool, none, some, List, [], ◌∷◌, ok, Result, if◌then◌else◌, eq_iff, str_eq,
  arith,
}
use signal_bot_tee.Credits.Pricing.{default_pricing}
use signal_bot_tee.Conversation.Types.{StoredToolCall}
use signal_bot_tee.Conversation.Store.{get, new_store}
use signal_bot_tee.Chat.Types.{BotMessage, Message, NearAiError, Response, Services, reply_target}
use signal_bot_tee.Chat.Handler.{ChatHandler, Bot, execute}
use signal_bot_tee.Chat.Usage.{added, prompts, completions}
use signal_bot_tee.Chat.Charging.{IsSettled, asked, reported, execute-IsSettled}
use signal_bot_tee.Chat.Isolation.{get-execute}
use signal_bot_tee.Tests.Credits.{alice}
use signal_bot_tee.Tests.Persistence.{Disk, small_platform, store}

abbrev weather_call : StoredToolCall
weather_call = record { id = "c1"; name = "get_weather"; arguments = "{}" }

abbrev model_says : List Message → Bool → Disk → Result NearAiError Response × Disk
model_says messages offered w = (
  ok (record {
    content = if offered then none else some "Sunny.";
    tool_calls = if offered then some (weather_call ∷ []) else none;
    usage = some (record { prompt_tokens = 1000; completion_tokens = 20 });
  }),
  w,
)

abbrev pub services : Services Disk
services = record {
  now = λ w. 3;
  utc = λ w. 1000;
  build_system_prompt = λ w. "be brief";
  chat_with_tools = model_says;
  send = λ account target text w. w;
  run_tool = λ c w. ("22 degrees", w);
  has_tools = λ w. true;
}

abbrev pub handler : ChatHandler
handler = record {
  system_prompt = "be brief";
  max_tool_iterations = 5;
  payments_enabled = true;
  pricing_config = default_pricing;
}

abbrev question : BotMessage
question = record {
  source = alice;
  text = "weather?";
  group_id = none;
  receiving_account = "+1999";
  source_number = none;
  is_group = false;
}

abbrev pub bot : Bot Disk
bot = record { conversations = new_store 20 3600; credits = store }

execute-IsSettled_example :
    let (a, t) = execute small_platform services handler question bot in
    let begun = asked small_platform services handler question bot in
    let us =
      reported small_platform services handler question handler.max_tool_iterations false begun in
    IsSettled small_platform services handler question
      (added prompts 0 us)
      (added completions 0 us)
      store.store_data
      a
      t.credits.store_data
execute-IsSettled_example = execute-IsSettled small_platform services handler question bot

not_bob : reply_target question ≢ "bob"
unfolding reply_target
not_bob e =
    let same : str_eq alice "bob" ≡ true = (eq_iff alice "bob").1 e in absurd (ground (arith, same))

get-execute_example :
    get 9 "bob" (execute small_platform services handler question bot).1.conversations
    ≡ get 9 "bob" bot.conversations
get-execute_example = get-execute small_platform services handler question 9 "bob" not_bob bot
