-- ===== src/Tests/NearAi.antt =====
-- A model behind a network that is slow to answer, and a stream in two chunks.
use signal_bot_tee.Common.{
  ℕ, suc, ◌+◌, String, text_append, str_eq, ◌≡◌, ◌≢◌, refl, eq_iff, arith, true, false, ltb, Option,
  none, some, List, [], ◌∷◌, ok, err, map, if◌then◌else◌,
}
use signal_bot_tee.Common.Http.{HttpResponse, is_success}
use signal_bot_tee.Platform.{Bytes}
use signal_bot_tee.NearAi.Client.{NearAiClient, rate_limit, chat, handle_response, extract_error}
use signal_bot_tee.NearAi.Retry.{chat_with_retry, retry_loop, Requests, chat_with_retry-Requests}
use signal_bot_tee.NearAi.Stream.{
  ChatChunk, chat_stream, chunk_content, line_content, lines_content,
}
use signal_bot_tee.NearAi.Events.{
  Event, delta, done, other, print_events, AreBodies, chat_stream-print_events,
}
use signal_bot_tee.Common.Trim.{strip_prefix}
use signal_bot_tee.Common.Split.{has_char}

-- The requests and the milliseconds slept so far
pub record Line : Type 0 where
  pub requests : ℕ
  pub slept : ℕ

-- The first two requests are one too many.
abbrev busy : NearAiClient Line ℕ ℕ
busy = record {
  base_url = "https://model";
  model = "m";
  post = λ url request w. (
    some (record { status = (if ltb w.requests 2 then 429 else 200); body = some "hello" }),
    record w { requests = suc w.requests },
  );
  parse = λ body. some (record {
    choices = record { content = some body; tool_calls = none; finish_reason = none } ∷ [];
    usage = none;
  });
  sleep = λ ms w. record w { slept = w.slept + ms };
}

abbrev idle : Line
idle = record { requests = 0; slept = 0 }

retried_twice :
    chat_with_retry busy [] none none none idle ≡ (ok "hello", record { requests = 3; slept = 300 })
unfolding chat_with_retry retry_loop chat handle_response extract_error is_success
retried_twice = refl

never_retried :
    chat_with_retry busy [] none none (some 0) idle
    ≡ (err rate_limit, record { requests = 1; slept = 0 })
unfolding chat_with_retry retry_loop chat handle_response extract_error is_success
never_retried = refl

chat_with_retry-Requests_example :
    Requests busy [] none none 0 3 idle (chat_with_retry busy [] none none none idle)
chat_with_retry-Requests_example = chat_with_retry-Requests busy [] none none none idle

-- A payload is its own content here, and a chunk is known by its first byte.
abbrev own_content : String → Option ChatChunk
own_content payload = if str_eq payload "" then none else some (some payload ∷ [])

abbrev first_events : List Event
first_events = delta "Hel" "Hel" ∷ other "" ∷ delta "lo" "lo" ∷ other ": still here" ∷ []

abbrev last_events : List Event
last_events = delta " world" " world" ∷ done ∷ []

abbrev numbered : Bytes → String
numbered [] = print_events last_events
numbered (b ∷ bs) = print_events first_events

abbrev good : HttpResponse
good = record { status = 200; body = none }

is_event : (json : String) → str_eq json "" ≡ false → own_content json ≡ some (some json ∷ [])
is_event json h = rw h refl

differ : (a b : String) → str_eq a b ≡ false → a ≢ b
differ a b unlike e =
    let same : str_eq a b ≡ true = (eq_iff a b).1 e in absurd (ground (arith, same, unlike))

events-AreEvents : AreBodies own_content (first_events ∷ last_events ∷ [])
unfolding has_char strip_prefix
events-AreEvents = (
  (
    ((refl, refl), differ "Hel" "[DONE]" refl, [], is_event "Hel" refl),
    (
      ((refl, refl), refl),
      (
        ((refl, refl), differ "lo" "[DONE]" refl, [], is_event "lo" refl),
        (((refl, refl), refl), tt),
      ),
    ),
  ),
  ((((refl, refl), differ " world" "[DONE]" refl, [], is_event " world" refl), (tt, tt)), tt),
)

chat_stream-print_events_example :
    chat_stream own_content numbered (ok good) (map (λ c. some c) ((1 ∷ []) ∷ [] ∷ []))
    ≡ ok (ok "Hello" ∷ ok " world" ∷ [])
unfolding is_success
chat_stream-print_events_example =
    chat_stream-print_events own_content numbered good ((1 ∷ []) ∷ [] ∷ [])
      (first_events ∷ last_events ∷ []) refl events-AreEvents refl

-- An event that the network cuts in two is lost.
cut_event :
    text_append (chunk_content own_content "da") (chunk_content own_content "ta: Hello\n") ≡ ""
unfolding chunk_content line_content lines_content
cut_event = refl
