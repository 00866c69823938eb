-- ===== src/Negotiation/Types.antt =====
-- crates/signal-bot/src/commands/conditional_recall.rs: a negotiation and what an offer does to it. `F`
-- is `f64`, of which the negotiation uses a comparison and the midpoint.
use signal_bot_tee.Common.{
  ℕ, String, Bool, true, false, ◌||◌, Option, none, some, is_some, Result, ok, err, str_eq,
  if◌then◌else◌,
}

-- The operations of `f64`: `a >= b`, `(a + b) / 2.0`, `a < 0.0`, and `str::parse`. The first is
-- false on a NaN.
pub record Float (F : Type 0) : Type 0 where
  pub ge : F → F → Bool
  pub midpoint : F → F → F
  pub is_negative : F → Bool
  pub parse : String → Option F

pub data NegotiationStatus : Type 0 where
  waiting_for_offers deal no_deal cancelled : NegotiationStatus

abbrev pub is_waiting : NegotiationStatus → Bool
is_waiting waiting_for_offers = true
is_waiting deal = false
is_waiting no_deal = false
is_waiting cancelled = false

pub record Negotiation (F : Type 0) : Type 0 where
  pub id : ℕ
  pub initiator : String
  pub counterparty : String
  pub description : String
  pub initiator_offer : Option F
  pub counterparty_offer : Option F
  pub deal_price : Option F
  pub status : NegotiationStatus
  pub created_at : ℕ
  pub resolved_at : Option ℕ

pub data OfferResult (F : Type 0) : Type 0 where
  waiting_for_other : OfferResult F
  deal_at : F → String → OfferResult F
  no_deal_on : String → OfferResult F

-- The refusals, whose texts stand in the source
pub data Refusal : Type 0 where
  not_found already_resolved not_participant already_submitted : Refusal

-- The sender of a message: the id that Signal delivers, and the phone number if it is known
pub record Sender : Type 0 where
  pub source : String
  pub phone : Option String

-- The closure `matches`
unfoldable pub is_sender : Sender → String → Bool
is_sender who participant =
    str_eq participant who.source || elim who.phone [ none ↦ false | some p ↦ str_eq participant p ]

module _ {F : Type 0} where
  -- The offer of a participant is written once.
  unfoldable pub place_offer : Sender → F → Negotiation F → Result Refusal (Negotiation F)
  place_offer who amount neg =
      if is_sender who neg.initiator
      then (if is_some neg.initiator_offer
          then err already_submitted
          else ok (record neg { initiator_offer = some amount }))
      else if is_sender who neg.counterparty
      then (if is_some neg.counterparty_offer
          then err already_submitted
          else ok (record neg { counterparty_offer = some amount }))
      else err not_participant

  -- `withdraw` on the negotiation that was found
  unfoldable pub withdraw_from : ℕ → Sender → Negotiation F → Result Refusal (Negotiation F)
  withdraw_from now who neg =
      if is_waiting neg.status
      then (if is_sender who neg.initiator || is_sender who neg.counterparty
          then ok (record neg {
            initiator_offer = none;
            counterparty_offer = none;
            status = cancelled;
            resolved_at = some now;
          })
          else err not_participant)
      else err already_resolved

module _ {F : Type 0} (f : Float F) (now : ℕ) where
  -- Both offers are in: the deal, or the forgetting
  unfoldable pub settle : F → F → Negotiation F → OfferResult F × Negotiation F
  settle init_offer counter_offer neg =
      if f.ge counter_offer init_offer
      then (
        deal_at (f.midpoint init_offer counter_offer) neg.description,
        record neg {
          deal_price = some (f.midpoint init_offer counter_offer);
          status = deal;
          resolved_at = some now;
        },
      )
      else (
        no_deal_on neg.description,
        record neg {
          initiator_offer = none;
          counterparty_offer = none;
          status = no_deal;
          resolved_at = some now;
        },
      )

  unfoldable pub settle_if_both :
      Option F → Option F → Negotiation F → OfferResult F × Negotiation F
  unfolding settle
  settle_if_both (some a) (some b) neg = settle a b neg
  settle_if_both (some a) none neg = (waiting_for_other, neg)
  settle_if_both none (some b) neg = (waiting_for_other, neg)
  settle_if_both none none neg = (waiting_for_other, neg)

  unfoldable pub evaluate : Negotiation F → OfferResult F × Negotiation F
  unfolding settle_if_both
  evaluate neg = settle_if_both neg.initiator_offer neg.counterparty_offer neg

  unfoldable pub evaluate_placed :
      Negotiation F
      → Result Refusal (Negotiation F)
      → Result Refusal (OfferResult F) × Negotiation F
  unfolding evaluate
  evaluate_placed neg (ok placed) = let (answer, neg') = evaluate placed in (ok answer, neg')
  evaluate_placed neg (err e) = (err e, neg)

  -- `submit_offer` on the negotiation that was found; a refusal leaves it as it was
  unfoldable pub offer_on :
      Sender → F → Negotiation F → Result Refusal (OfferResult F) × Negotiation F
  unfolding place_offer evaluate_placed
  offer_on who amount neg =
      if is_waiting neg.status
      then evaluate_placed neg (place_offer who amount neg)
      else (err already_resolved, neg)
