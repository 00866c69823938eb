-- ===== src/Tests/Negotiation.antt =====
-- The negotiation theorems at concrete messages and offers: amounts are whole.
use signal_bot_tee.Common.{
  ℕ, ◌+◌, ◌/◌, ◌≤◌, leb, String, false, Option, none, some, List, [], ◌∷◌, ◌≡◌, refl, arith, length,
  eq_iff,
}
use signal_bot_tee.Common.IdTable
use signal_bot_tee.Chat.Types.{BotMessage}
use signal_bot_tee.Negotiation.Types.{
  Float, Negotiation, deal, waiting_for_offers, is_sender, Sender,
}
use signal_bot_tee.Negotiation.Store.{NegotiationStore, new_store, submit_offer}
use signal_bot_tee.Negotiation.Store.Sealed.{Event, proposing, apply_all}
use signal_bot_tee.Negotiation.Store.Outcome.{offers_either_order, resolved_in, resolution}
use signal_bot_tee.Negotiation.Store.Resolving.{
  no_deal_forgets, can_resolve, IsResolvedAt, AreOffers,
}
use signal_bot_tee.Common.Numeral.{parse_u64}

unfoldable pub whole_amounts : Float ℕ
unfolding parse_u64
whole_amounts = record {
  ge = λ a b. leb b a;
  midpoint = λ a b. (a + b) / 2;
  is_negative = λ a. false;
  parse = parse_u64;
}

abbrev pub says : String → Option String → String → BotMessage
says source phone text = record {
  source = source;
  source_number = phone;
  text = text;
  is_group = false;
  group_id = none;
  receiving_account = "+1999";
}

abbrev pub agreed : Negotiation ℕ
agreed = record {
  id = 1;
  initiator = "seller-uuid";
  counterparty = "+14155551234";
  description = "used car";
  initiator_offer = some 1000;
  counterparty_offer = some 1200;
  deal_price = some 1100;
  status = deal;
  created_at = 5;
  resolved_at = some 7;
}

abbrev seller : Sender
seller = record { source = "seller-uuid"; phone = none }

abbrev buyer : Sender
buyer = record { source = "buyer-uuid"; phone = some "+14155551234" }

abbrev proposal : Negotiation ℕ
proposal = record {
  id = 1;
  initiator = "seller-uuid";
  counterparty = "+14155551234";
  description = "used car";
  initiator_offer = none;
  counterparty_offer = none;
  deal_price = none;
  status = waiting_for_offers;
  created_at = 5;
  resolved_at = none;
}

abbrev proposed_store : NegotiationStore ℕ
proposed_store = record { negotiations = (1, proposal) ∷ []; next_id = 2 }

offers_either_order_example :
    (submit_offer whole_amounts 7 1 buyer 1200
        (submit_offer whole_amounts 6 1 seller 1000 proposed_store).1
      ≡ resolved_in whole_amounts 1 (resolution whole_amounts 7 1000 1200 proposal) proposed_store)
    × (submit_offer whole_amounts 7 1 seller 1000
          (submit_offer whole_amounts 6 1 buyer 1200 proposed_store).1
        ≡ resolved_in whole_amounts 1
            (resolution whole_amounts 7 1000 1200 proposal)
            proposed_store)
unfolding IdTable.get is_sender
offers_either_order_example =
    offers_either_order whole_amounts 1 6 7 seller buyer 1000 1200 proposed_store {n = proposal}
      (refl, refl) refl (refl, refl) refl refl

no_deal_forgets_example :
    submit_offer whole_amounts 7 1 buyer 900
      (submit_offer whole_amounts 6 1 seller 1000 proposed_store).1
    ≡ submit_offer whole_amounts 7 1 buyer 20
        (submit_offer whole_amounts 6 1 seller 5000 proposed_store).1
unfolding IdTable.get is_sender whole_amounts
no_deal_forgets_example =
    no_deal_forgets whole_amounts 1 6 7 seller buyer 1000 900 5000 20 proposed_store {n = proposal}
      (refl, refl) refl (refl, refl) refl refl refl refl

abbrev agreed_store : NegotiationStore ℕ
agreed_store = record { negotiations = (1, agreed) ∷ []; next_id = 2 }

can_resolve_example :
    (more : List (Event ℕ)) × (length more ≤ 2)
    × AreOffers 6 1 1000 1200 proposal more
    × IsResolvedAt 1 (
        apply_all whole_amounts more (
          apply_all whole_amounts
            (proposing 5 "seller-uuid" "+14155551234" "used car" ∷ [])
            new_store))
unfolding apply_all IdTable.get IdTable.put
can_resolve_example =
    can_resolve whole_amounts (proposing 5 "seller-uuid" "+14155551234" "used car" ∷ []) 6 1 1000
      1200 {n = proposal} (refl, refl) (ground (arith, eq_iff "seller-uuid" "+14155551234"))
