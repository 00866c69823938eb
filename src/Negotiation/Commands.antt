-- ===== src/Negotiation/Commands.antt =====
-- crates/signal-bot/src/commands/conditional_recall.rs: the handlers of !negotiate, !offer, !withdraw
-- and !deals, from the message to the reply. A reply is a value with what its text is made of.
pub mod Sealing
use signal_bot_tee.Common.{
  ℕ, String, Bool, true, false, not, Option, none, some, List, [], ◌∷◌, Result, ok, err, str_eq,
  if◌then◌else◌, u64_max, is_some,
}
use signal_bot_tee.Common.Text.{has_prefix, is_cut, slice}
use signal_bot_tee.Common.Trim.{trim, trim_start_matches, split_space, remove_char}
use signal_bot_tee.Common.Numeral.{parse_u64}
use signal_bot_tee.Chat.Types.{BotMessage}
use signal_bot_tee.Negotiation.Types.{Float, Negotiation, OfferResult, Refusal, Sender}
use signal_bot_tee.Negotiation.Store.{
  NegotiationStore, create, submit_offer, withdraw, get_pending_for_user,
}

abbrev pub sender_of : BotMessage → Sender
sender_of m = record { source = m.source; phone = m.source_number }

pub data NegotiateReply : Type 0 where
  negotiate_usage not_a_phone with_yourself : NegotiateReply
  proposed : ℕ → String → String → NegotiateReply

-- The counterparty, the text that names it, and the description
unfoldable pub negotiate_target : String → Option (String × String)
unfolding trim split_space trim_start_matches
negotiate_target text =
    let (first, rest) = split_space (trim (trim_start_matches "!negotiate" text)) in
    elim rest [ none ↦ none | some description ↦ some (trim first, trim description) ]

pub data OfferReply (F : Type 0) : Type 0 where
  offer_usage negative_amount : OfferReply F
  answered : ℕ → OfferResult F → OfferReply F
  offer_refused : Refusal → OfferReply F

-- The errors of the handlers, which the main loop answers by a general apology
pub data CommandError : Type 0 where
  invalid_negotiation_id invalid_amount withdraw_usage : CommandError

pub data WithdrawReply : Type 0 where
  withdrawn : ℕ → String → WithdrawReply
  withdraw_refused : Refusal → WithdrawReply

-- One line of the answer to !deals
pub record DealLine : Type 0 where
  pub id : ℕ
  pub description : String
  pub is_seller : Bool
  pub other : String
  pub submitted : Bool
  pub created_at : ℕ

module _ {F : Type 0} where
  -- `NegotiateHandler::execute`; `none` is a panic.
  unfoldable pub negotiate :
      ℕ → BotMessage → NegotiationStore F → Option NegotiateReply × NegotiationStore F
  unfolding has_prefix negotiate_target create
  negotiate now message s = elim (negotiate_target message.text) [
    | none ↦ (some negotiate_usage, s)
    | some (counterparty, description) ↦
        if not (has_prefix "+" counterparty)
        then (some not_a_phone, s)
        else if str_eq counterparty message.source
        then (some with_yourself, s)
        else let (made, s') = create now message.source counterparty description s in
          (elim made [ none ↦ none | some id ↦ some (proposed id counterparty description) ], s')
  ]

  abbrev pub offer_answer : ℕ → Result Refusal (OfferResult F) → OfferReply F
  offer_answer id (ok r) = answered id r
  offer_answer id (err e) = offer_refused e

  -- `OfferHandler::execute`
  unfoldable pub offer :
      Float F
      → ℕ
      → BotMessage
      → NegotiationStore F
      → Result CommandError (OfferReply F) × NegotiationStore F
  unfolding trim trim_start_matches split_space remove_char parse_u64 submit_offer
  offer f now message s =
      let (first, rest) = split_space (trim (trim_start_matches "!offer" message.text)) in
      elim rest [
        | none ↦ (ok offer_usage, s)
        | some amount_text ↦ elim (parse_u64 first) [
          | none ↦ (err invalid_negotiation_id, s)
          | some id ↦ elim (f.parse (remove_char b',' (trim_start_matches "$" amount_text))) [
            | none ↦ (err invalid_amount, s)
            | some amount ↦
                if f.is_negative amount
                then (ok negative_amount, s)
                else let (answer, s') = submit_offer f now id (sender_of message) amount s in
                  (ok (offer_answer id answer), s')
          ]
        ]
      ]

  abbrev pub withdraw_answer : Result Refusal (Negotiation F) → WithdrawReply
  withdraw_answer (ok neg) = withdrawn neg.id neg.description
  withdraw_answer (err e) = withdraw_refused e

  -- `WithdrawHandler::execute`
  unfoldable pub withdraw_command :
      ℕ → BotMessage → NegotiationStore F → Result CommandError WithdrawReply × NegotiationStore F
  unfolding trim trim_start_matches parse_u64 withdraw
  withdraw_command now message s =
      elim (parse_u64 (trim (trim_start_matches "!withdraw" message.text))) [
        | none ↦ (err withdraw_usage, s)
        | some id ↦
            let (answer, s') = withdraw now id (sender_of message) s in
            (ok (withdraw_answer answer), s')
      ]

  -- The line of a negotiation; `none` is the panic of `&other[..8.min(other.len())]`.
  unfoldable pub deal_line : String → Negotiation F → Option DealLine
  unfolding is_cut
  deal_line source n =
      let sells = str_eq n.initiator source in
      let other = if sells then n.counterparty else n.initiator in
      if is_cut 8 other
      then none
      else some (record {
        id = n.id;
        description = n.description;
        is_seller = sells;
        other = slice other 0 8;
        submitted = is_some (if sells then n.initiator_offer else n.counterparty_offer);
        created_at = n.created_at;
      })

  unfoldable pub deal_lines : String → List (Negotiation F) → Option (List DealLine)
  unfolding deal_line
  deal_lines source [] = some []
  deal_lines source (n ∷ ns) = elim (deal_line source n) [
    | none ↦ none
    | some line ↦ elim (deal_lines source ns) [ none ↦ none | some lines ↦ some (line ∷ lines) ]
  ]

  -- `DealsHandler::execute`: no lines are the answer that there is nothing active.
  unfoldable pub deals : BotMessage → NegotiationStore F → Option (List DealLine)
  unfolding deal_lines get_pending_for_user
  deals message s = deal_lines message.source (get_pending_for_user (sender_of message) s)
