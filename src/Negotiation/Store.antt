-- ===== src/Negotiation/Store.antt =====
-- crates/signal-bot/src/commands/conditional_recall.rs: `NegotiationStore`.
pub mod Sealed
pub mod Outcome
pub mod Resolving
use signal_bot_tee.Common.{
  ℕ, ◌+◌, ◌%◌, u64_max, String, Bool, ◌&&◌, ◌||◌, Option, none, some, List, [], ◌∷◌, keep_if,
  Result, ok, err, if◌then◌else◌,
}
use signal_bot_tee.Common.IdTable
use signal_bot_tee.Common.Text.{is_cut}
use signal_bot_tee.Common.IdTable.{IdTable}
use signal_bot_tee.Negotiation.Types.{
  Float, Negotiation, waiting_for_offers, is_waiting, OfferResult, Refusal, not_found, Sender,
  is_sender, offer_on, withdraw_from,
}

pub record NegotiationStore (F : Type 0) : Type 0 where
  pub negotiations : IdTable (Negotiation F)
  pub next_id : ℕ

-- `NegotiationStore::new`
abbrev pub new_store : {F : Type 0} → NegotiationStore F
new_store = record { negotiations = []; next_id = 1 }

module _ {F : Type 0} where
  -- `create`: a `u64` wraps in a release build. The log line cuts both names after eight bytes, and
  -- panics inside a character, when the negotiation is already stored: then there is no id.
  unfoldable pub create :
      ℕ → String → String → String → NegotiationStore F → Option ℕ × NegotiationStore F
  unfolding is_cut
  create now initiator counterparty description s =
      let id = s.next_id in
      (
        if is_cut 8 initiator || is_cut 8 counterparty then none else some id,
        record {
          next_id = (id + 1) % (u64_max + 1);
          negotiations =
              IdTable.put id
                (record {
                  id = id;
                  initiator = initiator;
                  counterparty = counterparty;
                  description = description;
                  initiator_offer = none;
                  counterparty_offer = none;
                  deal_price = none;
                  status = waiting_for_offers;
                  created_at = now;
                  resolved_at = none;
                })
                s.negotiations;
        },
      )

  abbrev pub write_back : ℕ → Negotiation F → NegotiationStore F → NegotiationStore F
  write_back id neg s = record s { negotiations = IdTable.put id neg s.negotiations }

  unfoldable pub submit_offer :
      Float F
      → ℕ
      → ℕ
      → Sender
      → F
      → NegotiationStore F
      → Result Refusal (OfferResult F) × NegotiationStore F
  unfolding offer_on
  submit_offer f now id who amount s = elim (IdTable.get id s.negotiations) [
    | none ↦ (err not_found, s)
    | some neg ↦
        let (answer, neg') = offer_on f now who amount neg in (answer, write_back id neg' s)
  ]

  unfoldable pub withdraw :
      ℕ → ℕ → Sender → NegotiationStore F → Result Refusal (Negotiation F) × NegotiationStore F
  unfolding withdraw_from
  withdraw now id who s = elim (IdTable.get id s.negotiations) [
    | none ↦ (err not_found, s)
    | some neg ↦ elim (withdraw_from now who neg) [
      | ok neg' ↦ (ok neg', write_back id neg' s)
      | err e ↦ (err e, s)
    ]
  ]

  unfoldable pub get_pending_for_user : Sender → NegotiationStore F → List (Negotiation F)
  get_pending_for_user who s =
      keep_if
        (λ n. is_waiting n.status && (is_sender who n.initiator || is_sender who n.counterparty))
        (IdTable.values s.negotiations)
