-- ===== src/Negotiation/Store/Resolving.antt =====
-- crates/signal-bot/src/commands/conditional_recall.rs: what no deal forgets, that an open negotiation
-- can be resolved, and that a resolved one stays as it is.
use mathlib.Core.Path.{subst}
use signal_bot_tee.Common.{
  inl, inr, ℕ, ◌≤◌, String, false, Option, none, some, List, [], ◌∷◌, err, ◌≡◌, ◌≢◌, ◌⊎◌, refl, sym,
  ap, ◌∙◌, arith, length, eq_refl, eq_iff,
}
use signal_bot_tee.Common.IdTable
use signal_bot_tee.Common.IdTable.{get-put, put-put}
use signal_bot_tee.Negotiation.Types.{
  Float, waiting_for_offers, is_waiting, no_deal, Negotiation, Sender, is_sender, settle,
  settle_if_both, offer_on, withdraw_from, no_deal_on, already_resolved,
}
use signal_bot_tee.Negotiation.Store.{NegotiationStore, new_store, submit_offer, withdraw}
use signal_bot_tee.Negotiation.Store.Sealed.{
  Event, offering, apply, apply_all, apply_all-IsSealed, waiting_of, IsSealedAt,
}
use signal_bot_tee.Negotiation.Store.Outcome.{
  IsSeller, IsBuyer, IsOpen, offers_either_order, submit_offer_lem, seller_offers, buyer_offers,
  resolved_in,
}

-- A participant who is known by one text
abbrev pub under_id : String → Sender
under_id name = record { source = name; phone = none }

module _ {F : Type 0} where
  -- The negotiation of `id` has ended.
  abbrev pub IsResolvedAt : ℕ → NegotiationStore F → Type 0
  IsResolvedAt id s =
      (n : Negotiation F) × (IdTable.get id s.negotiations ≡ some n) × (is_waiting n.status ≡ false)

  under_id-IsSeller : (n : Negotiation F) → IsSeller (under_id n.initiator) n
  unfolding is_sender
  under_id-IsSeller n = ground (arith, eq_refl n.initiator)

  under_id-IsBuyer :
      (n : Negotiation F) → n.initiator ≢ n.counterparty → IsBuyer (under_id n.counterparty) n
  unfolding is_sender
  under_id-IsBuyer n differ = (
    ground (arith, eq_iff n.initiator n.counterparty, differ),
    ground (arith, eq_refl n.counterparty),
  )

  -- The offers of the two under their own names
  abbrev pub asking : ℕ → ℕ → F → Negotiation F → Event F
  asking t id a n = offering t id (under_id n.initiator) a

  abbrev pub bidding : ℕ → ℕ → F → Negotiation F → Event F
  bidding t id b n = offering t id (under_id n.counterparty) b

  -- The events are offers of the two participants: `a` of the seller, `b` of the buyer.
  abbrev pub AreOffers : ℕ → ℕ → F → F → Negotiation F → List (Event F) → Type 0
  AreOffers t id a b n [] = Unit {0}
  AreOffers t id a b n (e ∷ es) =
      ((e ≡ asking t id a n) ⊎ (e ≡ bidding t id b n)) × AreOffers t id a b n es

module _ {F : Type 0} (f : Float F) where
  settle_no_deal :
      (now : ℕ) (a b : F) (n : Negotiation F)
      → f.ge b a ≡ false
      → settle f now a b n ≡ (
        no_deal_on n.description,
        record n {
          initiator_offer = none;
          counterparty_offer = none;
          status = no_deal;
          resolved_at = some now;
        },
      )
  unfolding settle
  settle_no_deal now a b n unmet = rw (unmet, settle)

  -- Two offers that end in no deal leave no trace: of any two such pairs of offers the answer and the
  -- whole store afterwards are the same.
  pub no_deal_forgets :
      (id t u : ℕ) (seller buyer : Sender) (a b a' b' : F) (s : NegotiationStore F)
      {n : Negotiation F}
      → IsOpen id n s
      → IsSeller seller n
      → IsBuyer buyer n
      → n.initiator_offer ≡ none
      → n.counterparty_offer ≡ none
      → f.ge b a ≡ false
      → f.ge b' a' ≡ false
      → submit_offer f u id buyer b (submit_offer f t id seller a s).1
        ≡ submit_offer f u id buyer b' (submit_offer f t id seller a' s).1
  unfolding settle
  no_deal_forgets id t u seller buyer a b a' b' s {n} is_open sells buys no_ask no_bid unmet
        unmet' =
      (offers_either_order f id t u seller buyer a b s is_open sells buys no_ask no_bid).0
      ∙ ap (λ r. resolved_in f id r s)
          (settle_no_deal u a b (record n { initiator_offer = some a; counterparty_offer = some b })
              unmet
            ∙ sym (
                settle_no_deal u a' b'
                  (record n { initiator_offer = some a'; counterparty_offer = some b' }) unmet'))
      ∙ sym (offers_either_order f id t u seller buyer a' b' s is_open sells buys no_ask no_bid).0

  -- After a resolution neither an offer nor a withdrawal is accepted, and no negotiation of the store
  -- changes.
  pub resolved_is_final :
      (now id j : ℕ) (who : Sender) (amount : F) (s : NegotiationStore F) {n : Negotiation F}
      → IdTable.get id s.negotiations ≡ some n
      → is_waiting n.status ≡ false
      → ((submit_offer f now id who amount s).0 ≡ err already_resolved)
        × (IdTable.get j (submit_offer f now id who amount s).1.negotiations
            ≡ IdTable.get j s.negotiations)
        × (withdraw now id who s ≡ (err already_resolved, s))
  unfolding submit_offer withdraw
  resolved_is_final now id j who amount s {n} found over =
      let offered : offer_on f now who amount n ≡ (err already_resolved, n) = rw (over, offer_on) in
      (
        rw (submit_offer_lem f now id who amount s found, offered),
        rw (submit_offer_lem f now id who amount s found, offered)
            (ground (arith, get-put id j n s.negotiations, found)),
        rw (found, withdraw, over, withdraw_from),
      )

  settle_resolves :
      (now : ℕ) (a b : F) (n : Negotiation F) → is_waiting (settle f now a b n).1.status ≡ false
  unfolding settle
  settle_resolves now a b n = ground arith

  resolved_in-IsResolvedAt :
      (now id : ℕ) (a b : F) (n : Negotiation F) (s : NegotiationStore F)
      → IsResolvedAt id (resolved_in f id (settle f now a b n) s).1
  resolved_in-IsResolvedAt now id a b n s =
      let n' = (settle f now a b n).1 in
      (n', ground (arith, get-put id id n' s.negotiations), settle_resolves now a b n)

  module _ (t id : ℕ) (a b : F) (s : NegotiationStore F) (n : Negotiation F)
      (is_open : IsOpen id n s) (differ : n.initiator ≢ n.counterparty) where
    bid_after_ask :
        {x : F}
        → n.initiator_offer ≡ some x
        → n.counterparty_offer ≡ none
        → IsResolvedAt id (apply f (bidding t id b n) s)
    unfolding apply settle_if_both
    bid_after_ask {x} ho hp =
        let ended : submit_offer f t id (under_id n.counterparty) b s
            ≡ resolved_in f id (settle f t x b (record n { counterparty_offer = some b })) s =
          submit_offer_lem f t id (under_id n.counterparty) b s is_open.0
          ∙ rw (
            buyer_offers f t (under_id n.counterparty) b n (under_id-IsBuyer n differ) is_open.1 hp,
            ho,
            settle_if_both,
          ) in
        subst (λ r. IsResolvedAt id r.1) (sym ended)
          (resolved_in-IsResolvedAt t id x b (record n { counterparty_offer = some b }) s)

    ask_after_bid :
        {y : F}
        → n.initiator_offer ≡ none
        → n.counterparty_offer ≡ some y
        → IsResolvedAt id (apply f (asking t id a n) s)
    unfolding apply settle_if_both
    ask_after_bid {y} ho hp =
        let ended : submit_offer f t id (under_id n.initiator) a s
            ≡ resolved_in f id (settle f t a y (record n { initiator_offer = some a })) s =
          submit_offer_lem f t id (under_id n.initiator) a s is_open.0
          ∙ rw (
            seller_offers f t (under_id n.initiator) a n (under_id-IsSeller n) is_open.1 ho,
            hp,
            settle_if_both,
          ) in
        subst (λ r. IsResolvedAt id r.1) (sym ended)
          (resolved_in-IsResolvedAt t id a y (record n { initiator_offer = some a }) s)

    both_offer :
        n.initiator_offer ≡ none
        → n.counterparty_offer ≡ none
        → IsResolvedAt id (apply f (bidding t id b n) (apply f (asking t id a n) s))
    unfolding apply settle
    both_offer ho hp =
        subst (λ r. IsResolvedAt id r.1)
          (sym
            (offers_either_order f id t t (under_id n.initiator) (under_id n.counterparty) a b s
              is_open (under_id-IsSeller n) (under_id-IsBuyer n differ) ho hp).0)
          (resolved_in-IsResolvedAt t id a b
            (record n { initiator_offer = some a; counterparty_offer = some b }) s)

    resolves_at :
        (o p : Option F)
        → n.initiator_offer ≡ o
        → n.counterparty_offer ≡ p
        → (o ≡ none) ⊎ (p ≡ none)
        → (more : List (Event F)) × (length more ≤ 2)
          × AreOffers t id a b n more
          × IsResolvedAt id (apply_all f more s)
    unfolding apply_all
    resolves_at none none ho hp one = (
      asking t id a n ∷ bidding t id b n ∷ [],
      omega arith,
      (inl refl, (inr refl, tt)),
      both_offer ho hp,
    )
    resolves_at (some x) none ho hp one =
        (bidding t id b n ∷ [], omega arith, (inr refl, tt), bid_after_ask ho hp)
    resolves_at none (some y) ho hp one =
        (asking t id a n ∷ [], omega arith, (inl refl, tt), ask_after_bid ho hp)
    resolves_at (some x) (some y) ho hp one = absurd (ground (arith, one))

  -- A negotiation that waits, after whatever was done since the start, ends by at most two further
  -- events, each of them an offer of its seller or its buyer, whatever the two amounts, if its two
  -- participants are not the same text.
  pub can_resolve :
      (es : List (Event F)) (t id : ℕ) (a b : F) {n : Negotiation F}
      → IsOpen id n (apply_all f es new_store)
      → n.initiator ≢ n.counterparty
      → (more : List (Event F)) × (length more ≤ 2)
        × AreOffers t id a b n more
        × IsResolvedAt id (apply_all f more (apply_all f es new_store))
  can_resolve es t id a b {n} is_open differ =
      let sealed : IsSealedAt f waiting_for_offers n =
        subst (λ st. IsSealedAt f st n) (waiting_of f n.status is_open.1)
          (apply_all-IsSealed f es id is_open.0) in
      resolves_at t id a b (apply_all f es new_store) n is_open differ n.initiator_offer
        n.counterparty_offer refl refl sealed.0
