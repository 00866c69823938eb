-- ===== src/Negotiation/Store/Outcome.antt =====
-- crates/signal-bot/src/commands/conditional_recall.rs: how a negotiation ends.
use signal_bot_tee.Common.{if◌then◌else◌, ℕ, true, false, none, some, Result, ok, ◌≡◌, ◌∙◌, arith}
use signal_bot_tee.Common.IdTable
use signal_bot_tee.Common.IdTable.{get-put, put-put}
use signal_bot_tee.Negotiation.Types.{
  Float, is_waiting, Negotiation, Sender, is_sender, place_offer, evaluate, settle, settle_if_both,
  evaluate_placed, offer_on, OfferResult, waiting_for_other, Refusal, deal_at, no_deal_on, deal,
  no_deal,
}
use signal_bot_tee.Negotiation.Store.{NegotiationStore, submit_offer, write_back}

module _ {F : Type 0} where
  -- `who` is taken for the seller, who proposed.
  abbrev pub IsSeller : Sender → Negotiation F → Type 0
  IsSeller who n = is_sender who n.initiator ≡ true

  -- `who` is taken for the buyer.
  abbrev pub IsBuyer : Sender → Negotiation F → Type 0
  IsBuyer who n = (is_sender who n.initiator ≡ false) × (is_sender who n.counterparty ≡ true)

  -- The negotiation of `id`, which waits
  abbrev pub IsOpen : ℕ → Negotiation F → NegotiationStore F → Type 0
  IsOpen id n s = (IdTable.get id s.negotiations ≡ some n) × (is_waiting n.status ≡ true)

module _ {F : Type 0} (f : Float F) where
  pub submit_offer_lem :
      (now id : ℕ) (who : Sender) (amount : F) (s : NegotiationStore F) {n : Negotiation F}
      → IdTable.get id s.negotiations ≡ some n
      → submit_offer f now id who amount s
        ≡ ((offer_on f now who amount n).0, write_back id (offer_on f now who amount n).1 s)
  unfolding submit_offer
  submit_offer_lem now id who amount s found = rw (found, submit_offer)

  -- The seller's offer, when the buyer's is `o`
  pub seller_offers :
      (now : ℕ) (who : Sender) (a : F) (n : Negotiation F)
      → IsSeller who n
      → is_waiting n.status ≡ true
      → n.initiator_offer ≡ none
      → offer_on f now who a n ≡ (
          let (answer, n') =
            settle_if_both f now
              (some a)
              n.counterparty_offer
              (record n { initiator_offer = some a }) in
          (ok answer, n'))
  unfolding offer_on place_offer evaluate_placed evaluate
  seller_offers now who a n seller waits fresh = rw (waits, seller, fresh, offer_on, place_offer)

  pub buyer_offers :
      (now : ℕ) (who : Sender) (b : F) (n : Negotiation F)
      → IsBuyer who n
      → is_waiting n.status ≡ true
      → n.counterparty_offer ≡ none
      → offer_on f now who b n ≡ (
          let (answer, n') =
            settle_if_both f now n.initiator_offer
              (some b)
              (record n { counterparty_offer = some b }) in
          (ok answer, n'))
  unfolding offer_on place_offer evaluate_placed evaluate
  buyer_offers now who b n buyer waits fresh =
      rw (waits, buyer.0, buyer.1, fresh, offer_on, place_offer)

  -- What both offers together lead to, at the time `t`
  abbrev pub resolution : ℕ → F → F → Negotiation F → OfferResult F × Negotiation F
  resolution t a b n =
      if f.ge b a
      then (
        deal_at (f.midpoint a b) n.description,
        record n {
          initiator_offer = some a;
          counterparty_offer = some b;
          deal_price = some (f.midpoint a b);
          status = deal;
          resolved_at = some t;
        },
      )
      else (
        no_deal_on n.description,
        record n {
          initiator_offer = none;
          counterparty_offer = none;
          status = no_deal;
          resolved_at = some t;
        },
      )

  abbrev pub resolved_in :
      ℕ
      → OfferResult F × Negotiation F
      → NegotiationStore F
      → Result Refusal (OfferResult F) × NegotiationStore F
  resolved_in id r s = (ok r.0, write_back id r.1 s)

  -- The second offer of two, on what the first has written back
  pub second_offer :
      (t id : ℕ) (who : Sender) (x : F) (n n' : Negotiation F) (s : NegotiationStore F)
      (r : OfferResult F × Negotiation F)
      → IdTable.get id s.negotiations ≡ some n
      → offer_on f t who x n' ≡ (ok r.0, r.1)
      → submit_offer f t id who x (write_back id n' s) ≡ resolved_in id r s
  second_offer t id who x n n' s r found offered =
      let back : IdTable.get id (write_back id n' s).negotiations ≡ some n' =
        ground (arith, get-put id id n' s.negotiations) in
      submit_offer_lem t id who x (write_back id n' s) back ∙ rw (offered, put-put)

  module _ (id t u : ℕ) (seller buyer : Sender) (a b : F) (s : NegotiationStore F)
      {n : Negotiation F} (is_open : IsOpen id n s) (sells : IsSeller seller n)
      (buys : IsBuyer buyer n) (no_ask : n.initiator_offer ≡ none)
      (no_bid : n.counterparty_offer ≡ none) where
    pub seller_first :
        submit_offer f t id seller a s
        ≡ (ok waiting_for_other, write_back id (record n { initiator_offer = some a }) s)
    unfolding settle_if_both
    seller_first =
        submit_offer_lem t id seller a s is_open.0
        ∙ rw (seller_offers t seller a n sells is_open.1 no_ask, no_bid, settle_if_both)

    pub buyer_first :
        submit_offer f t id buyer b s
        ≡ (ok waiting_for_other, write_back id (record n { counterparty_offer = some b }) s)
    unfolding settle_if_both
    buyer_first =
        submit_offer_lem t id buyer b s is_open.0
        ∙ rw (buyer_offers t buyer b n buys is_open.1 no_bid, no_ask, settle_if_both)

    -- Two first offers, in either order, give the same answer and the same store: if the buyer's offer
    -- is at least the seller's, a deal at the midpoint of the two with both offers kept, else no deal
    -- with both forgotten, at the time of the second.
    pub offers_either_order :
        (submit_offer f u id buyer b (submit_offer f t id seller a s).1
          ≡ resolved_in id (resolution u a b n) s)
        × (submit_offer f u id seller a (submit_offer f t id buyer b s).1
            ≡ resolved_in id (resolution u a b n) s)
    unfolding settle_if_both settle
    offers_either_order = (
      rw seller_first (
          second_offer u id buyer b n _ s (resolution u a b n) is_open.0 (
            rw (
              buyer_offers u buyer b (record n { initiator_offer = some a }) buys is_open.1
                no_bid))),
      rw buyer_first (
          second_offer u id seller a n _ s (resolution u a b n) is_open.0 (
            rw (
              seller_offers u seller a (record n { counterparty_offer = some b }) sells is_open.1
                no_ask))),
    )
