-- ===== src/Negotiation/Store/Sealed.antt =====
-- crates/signal-bot/src/commands/conditional_recall.rs: what the store holds of offers, and when.
use mathlib.Core.Path.{subst}
use signal_bot_tee.Common.Exec.{Result-cases}
use signal_bot_tee.Common.{
  ℕ, String, true, Option, none, some, List, [], ◌∷◌, Result, ok, err, ◌≡◌, ◌⊎◌, inl, inr, refl,
  sym, ◌∙◌, arith, Bool-cases, Option-cases,
}
use signal_bot_tee.Common.IdTable
use signal_bot_tee.Common.IdTable.{All, put-All, get-All}
use signal_bot_tee.Negotiation.Types.{
  Float, NegotiationStatus, waiting_for_offers, deal, no_deal, cancelled, is_waiting, Negotiation,
  Sender, place_offer, evaluate, evaluate_placed, Refusal, settle, settle_if_both, offer_on,
  withdraw_from,
}
use signal_bot_tee.Negotiation.Store.{NegotiationStore, new_store, create, submit_offer, withdraw}

-- What is done with a store: the clock comes first.
pub data Event (F : Type 0) : Type 0 where
  proposing : ℕ → String → String → String → Event F
  offering : ℕ → ℕ → Sender → F → Event F
  withdrawing : ℕ → ℕ → Sender → Event F

module _ {F : Type 0} (f : Float F) where
  unfoldable pub apply : Event F → NegotiationStore F → NegotiationStore F
  unfolding create submit_offer withdraw
  apply (proposing now initiator counterparty description) s =
      (create now initiator counterparty description s).1
  apply (offering now id who amount) s = (submit_offer f now id who amount s).1
  apply (withdrawing now id who) s = (withdraw now id who s).1

  unfoldable pub apply_all : List (Event F) → NegotiationStore F → NegotiationStore F
  unfolding apply
  apply_all [] s = s
  apply_all (e ∷ es) s = apply_all es (apply e s)

  -- What a negotiation of a status holds
  abbrev pub IsSealedAt : NegotiationStatus → Negotiation F → Type 0
  IsSealedAt waiting_for_offers n =
      ((n.initiator_offer ≡ none) ⊎ (n.counterparty_offer ≡ none)) × (n.deal_price ≡ none)
  IsSealedAt deal n =
      (a b : F) × (n.initiator_offer ≡ some a)
      × (n.counterparty_offer ≡ some b)
      × (f.ge b a ≡ true)
      × (n.deal_price ≡ some (f.midpoint a b))
  IsSealedAt no_deal n =
      (n.initiator_offer ≡ none) × (n.counterparty_offer ≡ none) × (n.deal_price ≡ none)
  IsSealedAt cancelled n =
      (n.initiator_offer ≡ none) × (n.counterparty_offer ≡ none) × (n.deal_price ≡ none)

  abbrev pub IsSealed : Negotiation F → Type 0
  IsSealed n = IsSealedAt n.status n

  pub waiting_of : (st : NegotiationStatus) → is_waiting st ≡ true → st ≡ waiting_for_offers
  waiting_of waiting_for_offers h = refl
  waiting_of deal h = ground (arith, h)
  waiting_of no_deal h = ground (arith, h)
  waiting_of cancelled h = ground (arith, h)

  -- While it waits, it holds what a waiting one holds, and the other way round.
  of_waiting :
      (n : Negotiation F)
      → n.status ≡ waiting_for_offers
      → IsSealedAt waiting_for_offers n
      → IsSealed n
  of_waiting n e sealed = subst (λ st. IsSealedAt st n) (sym e) sealed

  settle-IsSealed :
      (now : ℕ) (a b : F) (n : Negotiation F)
      → n.initiator_offer ≡ some a
      → n.counterparty_offer ≡ some b
      → n.deal_price ≡ none
      → IsSealed (settle f now a b n).1
  unfolding settle
  settle-IsSealed now a b n ha hb unpriced = elim (Bool-cases (f.ge b a)) [
    | inl met ↦ rw met (a, b, ha, hb, met, refl)
    | inr unmet ↦ rw unmet (refl, refl, unpriced)
  ]

  evaluate-IsSealed :
      (now : ℕ) (n : Negotiation F)
      → n.status ≡ waiting_for_offers
      → n.deal_price ≡ none
      → IsSealed (evaluate f now n).1
  unfolding evaluate settle_if_both
  evaluate-IsSealed now n waits unpriced =
      evaluated_at n.initiator_offer n.counterparty_offer refl refl
    where
      evaluated_at :
          (o p : Option F)
          → n.initiator_offer ≡ o
          → n.counterparty_offer ≡ p
          → IsSealed (settle_if_both f now o p n).1
      evaluated_at (some a) (some b) ho hp = settle-IsSealed now a b n ho hp unpriced
      evaluated_at (some a) none ho hp = of_waiting n waits (inr hp, unpriced)
      evaluated_at none (some b) ho hp = of_waiting n waits (inl ho, unpriced)
      evaluated_at none none ho hp = of_waiting n waits (inl ho, unpriced)

  place_offer-keeps :
      (who : Sender) (amount : F) (n : Negotiation F) {n' : Negotiation F}
      → place_offer who amount n ≡ ok n'
      → (n'.status ≡ n.status) × (n'.deal_price ≡ n.deal_price)
  unfolding place_offer
  place_offer-keeps who amount n h = ground arith

  evaluate_placed-IsSealed :
      (now : ℕ) (who : Sender) (amount : F) (n : Negotiation F)
      → n.status ≡ waiting_for_offers
      → IsSealed n
      → (r : Result Refusal (Negotiation F)) → place_offer who amount n ≡ r
      → IsSealed (evaluate_placed f now n r).1
  unfolding evaluate_placed
  evaluate_placed-IsSealed now who amount n waits sealed (ok n') h =
      let kept = place_offer-keeps who amount n h in
      let held : IsSealedAt waiting_for_offers n = subst (λ st. IsSealedAt st n) waits sealed in
      evaluate-IsSealed now n' (kept.0 ∙ waits) (kept.1 ∙ held.1)
  evaluate_placed-IsSealed now who amount n waits sealed (err e) h = sealed

  offer_on-IsSealed :
      (now : ℕ) (who : Sender) (amount : F) (n : Negotiation F)
      → IsSealed n
      → IsSealed (offer_on f now who amount n).1
  unfolding offer_on
  offer_on-IsSealed now who amount n sealed = elim (Bool-cases (is_waiting n.status)) [
    | inl waits ↦ rw waits (
        evaluate_placed-IsSealed now who amount n (waiting_of n.status waits) sealed
          (place_offer who amount n) refl)
    | inr over ↦ rw over sealed
  ]

  withdraw_from_lem :
      (now : ℕ) (who : Sender) (n : Negotiation F) {n' : Negotiation F}
      → withdraw_from now who n ≡ ok n'
      → (is_waiting n.status ≡ true)
        × (n'.status ≡ cancelled)
        × (n'.initiator_offer ≡ none)
        × (n'.counterparty_offer ≡ none)
        × (n'.deal_price ≡ n.deal_price)
  unfolding withdraw_from
  withdraw_from_lem now who n h = ground arith

  withdraw_from-IsSealed :
      (now : ℕ) (who : Sender) (n : Negotiation F) {n' : Negotiation F}
      → IsSealed n
      → withdraw_from now who n ≡ ok n'
      → IsSealed n'
  withdraw_from-IsSealed now who n {n'} sealed h =
      let (waits, over, no_a, no_b, price) = withdraw_from_lem now who n h in
      let held : IsSealedAt waiting_for_offers n =
        subst (λ st. IsSealedAt st n) (waiting_of n.status waits) sealed in
      subst (λ st. IsSealedAt st n') (sym over) (no_a, no_b, price ∙ held.1)

  -- What holds of every negotiation of a store
  abbrev pub AllSealed : NegotiationStore F → Type 0
  AllSealed s = All IsSealed s.negotiations

  pub submit_offer-IsSealed :
      (now id : ℕ) (who : Sender) (amount : F) (s : NegotiationStore F)
      → AllSealed s
      → AllSealed (submit_offer f now id who amount s).1
  unfolding submit_offer
  submit_offer-IsSealed now id who amount s sealed =
      elim (Option-cases (IdTable.get id s.negotiations)) [
        | inl missing ↦ rw (missing, submit_offer) sealed
        | inr (n, found) ↦
            rw (found, submit_offer)
              (put-All IsSealed id _ s.negotiations
                (offer_on-IsSealed now who amount n
                  (get-All IsSealed id s.negotiations sealed found))
                sealed)
      ]

  pub withdraw-IsSealed :
      (now id : ℕ) (who : Sender) (s : NegotiationStore F)
      → AllSealed s
      → AllSealed (withdraw now id who s).1
  unfolding withdraw
  withdraw-IsSealed now id who s sealed = elim (Option-cases (IdTable.get id s.negotiations)) [
    | inl missing ↦ rw (missing, withdraw) sealed
    | inr (n, found) ↦ elim (Result-cases (withdraw_from now who n)) [
      | inl (n', left) ↦
          rw (found, left, withdraw)
            (put-All IsSealed id n' s.negotiations
              (withdraw_from-IsSealed now who n (get-All IsSealed id s.negotiations sealed found)
                left)
              sealed)
      | inr (e, refused) ↦ rw (found, refused, withdraw) sealed
    ]
  ]

  pub create-IsSealed :
      (now : ℕ) (initiator counterparty description : String) (s : NegotiationStore F)
      → AllSealed s
      → AllSealed (create now initiator counterparty description s).1
  unfolding create
  create-IsSealed now initiator counterparty description s sealed =
      put-All IsSealed s.next_id _ s.negotiations (inl refl, refl) sealed

  apply-IsSealed : (e : Event F) (s : NegotiationStore F) → AllSealed s → AllSealed (apply e s)
  unfolding apply
  apply-IsSealed (proposing now initiator counterparty description) s sealed =
      create-IsSealed now initiator counterparty description s sealed
  apply-IsSealed (offering now id who amount) s sealed =
      submit_offer-IsSealed now id who amount s sealed
  apply-IsSealed (withdrawing now id who) s sealed = withdraw-IsSealed now id who s sealed

  all-IsSealed :
      (es : List (Event F)) (s : NegotiationStore F) → AllSealed s → AllSealed (apply_all es s)
  unfolding apply_all
  all-IsSealed [] s sealed = sealed
  all-IsSealed (e ∷ es) s sealed = all-IsSealed es (apply e s) (apply-IsSealed e s sealed)

  -- Whatever is proposed, offered and withdrawn, in any order and by anyone: a negotiation that waits
  -- holds at most one offer and no price; one with a deal holds both offers, the buyer's at least the
  -- seller's, and their midpoint as its price; one that ended in no deal, or was cancelled, holds no
  -- offer and no price.
  pub apply_all-IsSealed :
      (es : List (Event F)) (id : ℕ) {n : Negotiation F}
      → IdTable.get id (apply_all es new_store).negotiations ≡ some n
      → IsSealed n
  apply_all-IsSealed es id found =
      get-All IsSealed id (apply_all es new_store).negotiations (all-IsSealed es new_store tt) found
