-- ===== src/Payments/Deposits/Outcomes.antt =====
-- crates/x402-payments/src/api/handlers.rs: what `process_deposit` credits, and that it does so once.
use signal_bot_tee.Common.{
  ℕ, String, true, false, some, List, [], ◌∷◌, Result, ok, err, ◌≡◌, ◌⊎◌, inl, inr, refl, ap, ◌∙◌,
  arith, Bool-cases, Option-cases, if◌then◌else◌,
}
use signal_bot_tee.Common.Exec.{Result-cases}
use signal_bot_tee.Credits.Types.{PaymentError, Deposit, confirmed}
use signal_bot_tee.Credits.Store.Data.{is_tx_processed, grant}
use signal_bot_tee.Credits.Store.Data.Outcomes.{grant_processed, grant_keeps_processed}
use signal_bot_tee.Credits.Store.Platform.{Platform}
use signal_bot_tee.Credits.Store.Persist.{CreditStore}
use signal_bot_tee.Credits.Store.Persist.RoundTrip.{store_data-add_credits}
use signal_bot_tee.Payments.Facilitator.{PaymentVerification, Facilitator, of_chain}
use signal_bot_tee.Payments.Deposits.{
  ApiError, chain_disabled, duplicate_tx, chain_not_available, not_verified, verification_failed,
  DepositRequest, DepositResponse, AppState, chain_enabled, payload_of, verify_on_chain,
  confirmed_deposit, credit, process_deposit,
}

module _ {W : Type 0} (p : Platform W) (a : AppState W) (id : String) (now : ℕ) (q : DepositRequest)
    (s : CreditStore W) where
  -- A facilitator of the request's chain that answers `r`, and leaves the world `w`
  abbrev pub Answers : Result PaymentError PaymentVerification → W → Type 0
  Answers r w =
      (f : Facilitator W) × (of_chain q.chain a.facilitators ≡ some f)
      × (f.verify_payment (payload_of p a q) s.world ≡ (r, w))

  abbrev Ends : Type 1
  Ends = Result ApiError DepositResponse × CreditStore W → Type 0

  verified_cases :
      (Q : Ends) (v : PaymentVerification) (w : W)
      → chain_enabled p a q.chain ≡ true
      → is_tx_processed q.tx_hash s.store_data ≡ false
      → Answers (ok v) w
      → (v.is_verified ≡ false → Q (err not_verified, record s { world = w }))
      → (v.is_verified ≡ true
          → Q (credit p a now (confirmed_deposit p a id now q v) (record s { world = w })))
      → Q (process_deposit p a id now q s)
  unfolding process_deposit verify_on_chain confirmed_deposit
  verified_cases Q v w on fresh (f, found, said) refused credited =
      rw (on, fresh, found, said)
        (elim (Bool-cases v.is_verified) [
          | inl good ↦ rw good (credited good)
          | inr bad ↦ rw bad (refused bad)
        ])

  -- The ends of `process_deposit`: four refusals that leave the store's data alone, and a grant.
  process_deposit_cases :
      (Q : Ends)
      → Q (err chain_disabled, s)
      → (is_tx_processed q.tx_hash s.store_data ≡ true → Q (err duplicate_tx, s))
      → Q (err chain_not_available, s)
      → ((e : PaymentError) (w : W) → Q (err (verification_failed e), record s { world = w }))
      → ((w : W) → Q (err not_verified, record s { world = w }))
      → ((v : PaymentVerification) (w : W)
          → chain_enabled p a q.chain ≡ true
          → is_tx_processed q.tx_hash s.store_data ≡ false
          → Answers (ok v) w
          → v.is_verified ≡ true
          → Q (credit p a now (confirmed_deposit p a id now q v) (record s { world = w })))
      → Q (process_deposit p a id now q s)
  unfolding process_deposit verify_on_chain
  process_deposit_cases Q off twice missing failed refused credited =
      elim (Bool-cases (chain_enabled p a q.chain)) [
        | inr disabled ↦ rw disabled off
        | inl on ↦ elim (Bool-cases (is_tx_processed q.tx_hash s.store_data)) [
          | inl old ↦ rw (on, old) (twice old)
          | inr fresh ↦ elim (Option-cases (of_chain q.chain a.facilitators)) [
            | inl none_there ↦ rw (on, fresh, none_there) missing
            | inr (f, found) ↦ elim (Result-cases (f.verify_payment (payload_of p a q) s.world).0) [
              | inr (e, said) ↦ rw (on, fresh, found, said) (failed e _)
              | inl (v, said) ↦
                  let w : W = (f.verify_payment (payload_of p a q) s.world).1 in
                  let heard : Answers (ok v) w = (f, found, ap (λ r. (r, w)) said) in
                  verified_cases Q v w on fresh heard (λ _. refused w)
                    (λ good. credited v w on fresh heard good)
            ]
          ]
        ]
      ]

  -- The deposit that a verification is worth: as many credits as micro-dollars were verified
  abbrev pub deposit_of : PaymentVerification → Deposit
  deposit_of v = record {
    id = id;
    user_id = q.user_id;
    chain = q.chain;
    tx_hash = q.tx_hash;
    amount_usdc = v.amount_usdc;
    credits_granted = v.amount_usdc;
    status = confirmed;
    created_at = now;
    confirmed_at = some now;
  }

  pub process_deposit-grants :
      let t = (process_deposit p a id now q s).1 in
      (t.store_data ≡ s.store_data)
      ⊎ ((v : PaymentVerification) × (w : W) × Answers (ok v) w
          × (v.is_verified ≡ true)
          × (chain_enabled p a q.chain ≡ true)
          × (is_tx_processed q.tx_hash s.store_data ≡ false)
          × (t.store_data ≡ (grant now (deposit_of v) s.store_data).1))
  unfolding credit confirmed_deposit
  process_deposit-grants =
      process_deposit_cases
        (λ end.
          (end.1.store_data ≡ s.store_data)
          ⊎ ((v : PaymentVerification) × (w : W) × Answers (ok v) w
              × (v.is_verified ≡ true)
              × (chain_enabled p a q.chain ≡ true)
              × (is_tx_processed q.tx_hash s.store_data ≡ false)
              × (end.1.store_data ≡ (grant now (deposit_of v) s.store_data).1)))
        (inl refl) (λ _. inl refl) (inl refl) (λ e w. inl refl) (λ w. inl refl)
        (λ v w on fresh heard good. inr (
          v,
          w,
          heard,
          good,
          on,
          fresh,
          store_data-add_credits p now (confirmed_deposit p a id now q v) (record s { world = w }),
        ))

  -- A processed hash is refused, and nothing changes.
  process_deposit-processed :
      is_tx_processed q.tx_hash s.store_data ≡ true
      → process_deposit p a id now q s
        ≡ (err (if chain_enabled p a q.chain then duplicate_tx else chain_disabled), s)
  unfolding process_deposit
  process_deposit-processed old = elim (Bool-cases (chain_enabled p a q.chain)) [
    | inl on ↦ rw (on, old) refl
    | inr off ↦ rw off refl
  ]

  answered_processed :
      (r : DepositResponse)
      → (process_deposit p a id now q s).0 ≡ ok r
      → is_tx_processed q.tx_hash (process_deposit p a id now q s).1.store_data ≡ true
  unfolding credit confirmed_deposit
  answered_processed r =
      process_deposit_cases
        (λ end. end.0 ≡ ok r → is_tx_processed q.tx_hash end.1.store_data ≡ true)
        (λ h. absurd (ground (arith, h))) (λ _ h. absurd (ground (arith, h)))
        (λ h. absurd (ground (arith, h))) (λ e w h. absurd (ground (arith, h)))
        (λ w h. absurd (ground (arith, h)))
        (λ v w on fresh heard good h.
          let d : Deposit = confirmed_deposit p a id now q v in
          rw (store_data-add_credits p now d (record s { world = w }))
            (grant_processed now d s.store_data))

-- A request, with the id and the time that the server gives it
abbrev pub Request : Type 0
Request = String × (ℕ × DepositRequest)

-- The store of a server after the requests that it has handled, one after the other
abbrev pub after_deposits :
    {W : Type 0} → Platform W → AppState W → List Request → CreditStore W → CreditStore W
after_deposits p a [] s = s
after_deposits p a ((id, (now, q)) ∷ qs) s =
    after_deposits p a qs (process_deposit p a id now q s).1

after_deposits-processed :
    {W : Type 0} (p : Platform W) (a : AppState W) (hash : String) (qs : List Request)
    (s : CreditStore W)
    → is_tx_processed hash s.store_data ≡ true
    → is_tx_processed hash (after_deposits p a qs s).store_data ≡ true
after_deposits-processed p a hash [] s old = old
after_deposits-processed p a hash ((id, (now, q)) ∷ qs) s old =
    after_deposits-processed p a hash qs (process_deposit p a id now q s).1
      (elim (process_deposit-grants p a id now q s) [
        | inl same ↦ rw same old
        | inr (v, w, _, _, _, _, granted) ↦
            rw granted
              (grant_keeps_processed now (deposit_of p a id now q s v) hash s.store_data old)
      ])

-- Once a server has answered a deposit with success, it refuses every later request with its
-- transaction hash, for any user, chain and amount, and whatever other deposits it was asked for
-- in between; and the refusal changes nothing. The server runs on, with its own store.
pub deposit_once :
    {W : Type 0} (p : Platform W) (a : AppState W) (id id2 : String) (now later : ℕ)
    (q q2 : DepositRequest) (qs : List Request) (s : CreditStore W) (r : DepositResponse)
    → (process_deposit p a id now q s).0 ≡ ok r
    → q2.tx_hash ≡ q.tx_hash
    → let t = after_deposits p a qs (process_deposit p a id now q s).1 in
      process_deposit p a id2 later q2 t
      ≡ (err (if chain_enabled p a q2.chain then duplicate_tx else chain_disabled), t)
deposit_once p a id id2 now later q q2 qs s r done same =
    let answered = (process_deposit p a id now q s).1 in
    process_deposit-processed p a id2 later q2 (after_deposits p a qs answered) (
      rw same (
        after_deposits-processed p a q.tx_hash qs answered
          (answered_processed p a id now q s r done)))

-- Who asks first is credited: whatever facilitator ignores the user of a payload, as it has no way to
-- tell whose a transaction is, a transaction that `process_deposit` would credit to one user it
-- credits to any other user who names it first.
pub deposit_claimable :
    {W : Type 0} (p : Platform W) (a : AppState W) (id : String) (now : ℕ) (q : DepositRequest)
    (s : CreditStore W) (thief : String)
    → let q' = record q { user_id = thief } in
      ((f : Facilitator W) (w : W)
        → of_chain q.chain a.facilitators ≡ some f
        → f.verify_payment (payload_of p a q') w ≡ f.verify_payment (payload_of p a q) w)
      → (v : PaymentVerification) (w : W) → chain_enabled p a q.chain ≡ true
      → is_tx_processed q.tx_hash s.store_data ≡ false
      → Answers p a id now q s (ok v) w
      → v.is_verified ≡ true
      → (process_deposit p a id now q' s).1.store_data
        ≡ (grant now (confirmed_deposit p a id now q' v) s.store_data).1
unfolding credit
deposit_claimable p a id now q s thief blind v w on fresh (f, found, said) good =
    let q' : DepositRequest = record q { user_id = thief } in
    let d : Deposit = confirmed_deposit p a id now q' v in
    verified_cases p a id now q' s (λ end. end.1.store_data ≡ (grant now d s.store_data).1) v w on
      fresh (f, found, blind f s.world found ∙ said) (λ bad. absurd (ground (arith, bad, good)))
      (λ _. store_data-add_credits p now d (record s { world = w }))
