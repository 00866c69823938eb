-- ===== src/Signal/Client.antt =====
-- crates/signal-client/src/types.rs and client.rs: a message out of an envelope, and the requests to the
-- Signal CLI. `W` is the state of the network.
use signal_bot_tee.Common.{
  String, text_append, not, ◌&&◌, Option, none, some, List, [], ◌∷◌, Result, ok, err, if◌then◌else◌,
  is_some, unwrap_or,
}
use signal_bot_tee.Common.Http.{HttpResponse, is_success}
use signal_bot_tee.Common.Text.{has_prefix, contains_text}
use signal_bot_tee.Chat.Types.{BotMessage, reply_target}

-- The time stamps are left out: only the quote of a translation reads one.
pub record DataMessage : Type 0 where
  pub message : Option String
  pub group_info : Option String

pub record Envelope : Type 0 where
  pub source : String
  pub source_number : Option String
  pub data_message : Option DataMessage

pub record IncomingMessage : Type 0 where
  pub envelope : Envelope
  pub account : String

unfoldable pub from_incoming : IncomingMessage → Option BotMessage
from_incoming msg = elim msg.envelope.data_message [
  | none ↦ none
  | some content ↦ elim content.message [
    | none ↦ none
    | some text ↦ some (record {
      source = msg.envelope.source;
      source_number = msg.envelope.source_number;
      text = text;
      is_group = is_some content.group_info;
      group_id = content.group_info;
      receiving_account = msg.account;
    })
  ]
]

-- `SignalError`: a request that fails on the way, and one that is answered by an error
pub data SignalError : Type 0 where
  http : SignalError
  api send_failed : String → SignalError

pub record SendMessageRequest : Type 0 where
  pub message : String
  pub number : Option String
  pub recipients : Option (List String)
  pub quote_author : Option String

-- The network, serde_json, and the crates urlencoding and base64
pub record SignalClient (W : Type 0) : Type 0 where
  pub base_url : String
  pub get : String → W → Option HttpResponse × W
  pub post : String → SendMessageRequest → W → Option HttpResponse × W
  pub parse_accounts : String → Option (List String)
  pub parse_messages : String → Option (List IncomingMessage)
  pub encode : String → String
  pub base64 : String → String

abbrev pub parsed : {A : Type 0} → (String → Option A) → Option String → Result SignalError A
parsed parse none = err http
parsed parse (some body) = elim (parse body) [ none ↦ err http | some a ↦ ok a ]

abbrev pub answer_of :
    {A : Type 0} → (String → Option A) → Option HttpResponse → Result SignalError A
answer_of parse none = err http
answer_of parse (some r) =
    if is_success r then parsed parse r.body else err (api (unwrap_or r.body ""))

abbrev pub sent : Option HttpResponse → Result SignalError (Unit {0})
sent none = err http
sent (some r) = if is_success r then ok tt else err (send_failed (unwrap_or r.body ""))

module _ {W : Type 0} (c : SignalClient W) where
  unfoldable pub list_accounts : W → Result SignalError (List String) × W
  unfolding is_success
  list_accounts w =
      let (reply, w') = c.get (text_append c.base_url "/v1/accounts") w in
      (answer_of c.parse_accounts reply, w')

  unfoldable pub receive : String → W → Result SignalError (List IncomingMessage) × W
  unfolding is_success
  receive phone_number w =
      let (reply, w') =
        c.get (text_append c.base_url (text_append "/v1/receive/" (c.encode phone_number))) w in
      (answer_of c.parse_messages reply, w')

  -- "Group IDs need "group." prefix + base64 encoding for /v2/send"
  unfoldable pub format_recipient : String → String
  unfolding has_prefix contains_text
  format_recipient recipient =
      if not (has_prefix "+" recipient) && not (contains_text "-" recipient)
      then (if has_prefix "group." recipient
          then recipient
          else text_append "group." (c.base64 recipient))
      else recipient

  unfoldable pub send : String → String → String → W → Result SignalError (Unit {0}) × W
  unfolding format_recipient is_success
  send from recipient message w =
      let (reply, w') =
        c.post (text_append c.base_url "/v2/send")
          (record {
            message = message;
            number = some from;
            recipients = some (format_recipient recipient ∷ []);
            quote_author = none;
          })
          w in
      (sent reply, w')

  unfoldable pub send_with_quote :
      String → String → String → String → W → Result SignalError (Unit {0}) × W
  unfolding format_recipient is_success
  send_with_quote from recipient message author w =
      let (reply, w') =
        c.post (text_append c.base_url "/v2/send")
          (record {
            message = message;
            number = some from;
            recipients = some (format_recipient recipient ∷ []);
            quote_author = some author;
          })
          w in
      (sent reply, w')

  unfoldable pub reply : BotMessage → String → W → Result SignalError (Unit {0}) × W
  unfolding send
  reply original message w = send original.receiving_account (reply_target original) message w
