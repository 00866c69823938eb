-- ===== src/NearAi/Client.antt =====
-- crates/near-ai-client/src/client.rs, error.rs and types.rs: the requests and what is made of their
-- answers. `W` is the state of the network, `F` is `f32` and `D` a tool's definition.
use signal_bot_tee.Common.{
  ℕ, String, text_append, str_eq, ◌==◌, Bool, false, Option, none, some, List, [], ◌∷◌, Result, ok,
  err, if◌then◌else◌, is_some, unwrap_or,
}
use signal_bot_tee.Common.Http.{HttpResponse, is_success}
use signal_bot_tee.Conversation.Types.{StoredToolCall}
use signal_bot_tee.Credits.Pricing.{TokenUsage}
use signal_bot_tee.Chat.Types.{Message, user_role}

-- `NearAiError`, whose errors of reqwest and of serde carry no more here
pub data NearAiError : Type 0 where
  http json rate_limit unauthorized empty_response : NearAiError
  api : ℕ → String → NearAiError

pub record ChatRequest (F D : Type 0) : Type 0 where
  pub model : String
  pub messages : List Message
  pub temperature : Option F
  pub max_tokens : Option ℕ
  pub stream : Option Bool
  pub tools : Option (List D)
  pub tool_choice : Option String

-- `Choice`, with the fields of its `ResponseMessage`
pub record Choice : Type 0 where
  pub content : Option String
  pub tool_calls : Option (List StoredToolCall)
  pub finish_reason : Option String

pub record ChatResponse : Type 0 where
  pub choices : List Choice
  pub usage : Option TokenUsage

pub record ChatResponseWithTools : Type 0 where
  pub content : Option String
  pub tool_calls : Option (List StoredToolCall)
  pub finish_reason : String
  pub usage : Option TokenUsage

-- `post` sends with the key of the client, and gives `none` if that fails; `parse` is serde_json.
pub record NearAiClient (W F D : Type 0) : Type 0 where
  pub base_url : String
  pub model : String
  pub post : String → ChatRequest F D → W → Option HttpResponse × W
  pub parse : String → Option ChatResponse
  pub sleep : ℕ → W → W

unfoldable pub extract_error : HttpResponse → NearAiError
extract_error r =
    if r.status == 429
    then rate_limit
    else if r.status == 401
    then unauthorized
    else api r.status (unwrap_or r.body "Unknown error")

unfoldable pub handle_response :
    {A : Type 0} → (String → Option A) → HttpResponse → Result NearAiError A
unfolding extract_error is_success
handle_response parse r =
    if is_success r
    then (elim r.body [
      | none ↦ err http
      | some body ↦ elim (parse body) [ none ↦ err json | some a ↦ ok a ]
    ])
    else err (extract_error r)

-- `.await?` of the request, and then `handle_response`
abbrev pub chat_response :
    (String → Option ChatResponse) → Option HttpResponse → Result NearAiError ChatResponse
chat_response parse none = err http
chat_response parse (some r) = handle_response parse r

abbrev pub content_of : Option String → Result NearAiError String
content_of none = err empty_response
content_of (some s) = if str_eq s "" then err empty_response else ok s

abbrev pub first_content : Result NearAiError ChatResponse → Result NearAiError String
first_content (err e) = err e
first_content (ok r) = elim r.choices [ [] ↦ err empty_response | c ∷ cs ↦ content_of c.content ]

abbrev pub first_choice : Result NearAiError ChatResponse → Result NearAiError ChatResponseWithTools
first_choice (err e) = err e
first_choice (ok r) = elim r.choices [
  | [] ↦ err empty_response
  | c ∷ cs ↦ ok (record {
    content = c.content;
    tool_calls = c.tool_calls;
    finish_reason = unwrap_or c.finish_reason "";
    usage = r.usage;
  })
]

module _ {W F D : Type 0} (c : NearAiClient W F D) where
  abbrev pub chat_url : String
  chat_url = text_append c.base_url "/chat/completions"

  unfoldable pub chat : List Message → Option F → Option ℕ → W → Result NearAiError String × W
  unfolding handle_response
  chat messages temperature max_tokens w =
      let (reply, w') =
        c.post chat_url
          (record {
            model = c.model;
            messages = messages;
            temperature = temperature;
            max_tokens = max_tokens;
            stream = some false;
            tools = none;
            tool_choice = none;
          })
          w in
      (first_content (chat_response c.parse reply), w')

  unfoldable pub chat_with_tools :
      List Message
      → Option F
      → Option ℕ
      → Option (List D)
      → W
      → Result NearAiError ChatResponseWithTools × W
  unfolding handle_response
  chat_with_tools messages temperature max_tokens tools w =
      let (reply, w') =
        c.post chat_url
          (record {
            model = c.model;
            messages = messages;
            temperature = temperature;
            max_tokens = max_tokens;
            stream = some false;
            tools = tools;
            tool_choice = (if is_some tools then some "auto" else none);
          })
          w in
      (first_choice (chat_response c.parse reply), w')

  abbrev pub is_reachable : Option HttpResponse → Bool
  is_reachable none = false
  is_reachable (some r) = is_success r

  unfoldable pub health_check : W → Bool × W
  unfolding is_success
  health_check w =
      let (reply, w') =
        c.post chat_url
          (record {
            model = c.model;
            messages =
                record {
                  role = user_role;
                  content = some "ping";
                  tool_call_id = none;
                  tool_calls = none;
                }
                ∷ [];
            temperature = none;
            max_tokens = some 1;
            stream = some false;
            tools = none;
            tool_choice = none;
          })
          w in
      (is_reachable reply, w')
