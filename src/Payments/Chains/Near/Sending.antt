-- ===== src/Payments/Chains/Near/Sending.antt =====
-- What a transfer on NEAR has sent, where it answers.
use signal_bot_tee.Common.{
  ℕ, ◌+◌, ◌%◌, ◌^◌, ◌⊎◌, inl, inr, true, false, String, text_append, ◌≡◌, refl, ap, sym, ◌∙◌, arith,
  ◌≤◌, Option, none, some, Result, ok, err,
}
use signal_bot_tee.Common.Exec.{bind_ok, Exec, ◌>>=◌, ok_or}
use signal_bot_tee.Credits.Types.{PaymentError, internal, rpc_error}
use signal_bot_tee.Payments.Facilitator.{TxResult}
use signal_bot_tee.Payments.Chains.Near.Transfer.{
  Transaction, FinalExecutionStatus, success_value, not_final, failure, QueryAnswer, NearWallet,
  min_balance, funded, asked, committed, ensure_account_funded, get_access_key, get_latest_block,
  broadcast_tx_commit, transfer_transaction, transfer_to, answered,
}

-- A chain that returns: its first part returns, and the rest ends as the chain does.
bind_through :
    {S E A B : Type 0} (m : Exec S E A) (k : A → Exec S E B) (s : S) {b : B}
    → ((m >>= k) s).0 ≡ ok b
    → (a : A) × ((m s).0 ≡ ok a) × ((k a (m s).1).0 ≡ ok b) × (((m >>= k) s).1 ≡ (k a (m s).1).1)
bind_through {S} {E} {A} {B} m k s {b} h =
    let (a, first, whole) = bind_ok m k s h in
    (
      a,
      first,
      ap (λ (x : Result E B × S). x.0) (sym whole) ∙ h,
      ap (λ (x : Result E B × S). x.1) whole,
    )

through_ok_or :
    {S A B : Type 0} (o : Option A) (e : PaymentError) (k : A → Exec S PaymentError B) (s : S)
    {b : B}
    → ((ok_or o e >>= k) s).0 ≡ ok b
    → (a : A) × (o ≡ some a) × ((k a s).0 ≡ ok b) × (((ok_or o e >>= k) s).1 ≡ (k a s).1)
through_ok_or none e k s h = absurd (cc)
through_ok_or (some a) e k s h = (a, refl, h, refl)

ok_or-some :
    {A : Type 0} (o : Option A) (e : PaymentError) {a : A}
    → (elim o [ none ↦ err e | some x ↦ ok x ]) ≡ ok a
    → o ≡ some a
ok_or-some none e h = absurd (cc)
ok_or-some (some x) e h = cc

-- What an answer says of how the transaction ended: success exactly if it is final and succeeded, and
-- no answer at all of one that failed
abbrev pub IsOutcome : FinalExecutionStatus → TxResult → Type 0
IsOutcome status r =
    ((status ≡ success_value) × (r.success ≡ true)) ⊎ ((status ≡ not_final) × (r.success ≡ false))

committed-some :
    (o : Option (FinalExecutionStatus × String)) {r : TxResult}
    → committed o ≡ ok r
    → (status : FinalExecutionStatus) × (o ≡ some (status, r.tx_hash))
      × IsOutcome status r
      × (r.block_number ≡ none)
committed-some none h = absurd (cc)
committed-some (some (success_value, hash)) {r} h =
    let same : hash ≡ r.tx_hash = cc in (success_value, rw same refl, inl (refl, cc), cc)
committed-some (some (failure e, hash)) h = absurd (cc)
committed-some (some (not_final, hash)) {r} h =
    let same : hash ≡ r.tx_hash = cc in (not_final, rw same refl, inr (refl, cc), cc)

module _ {W : Type 0} (n : NearWallet W) (destination : String) (amount : ℕ) (w : W) where
  abbrev pub after_funding : W
  after_funding = (n.view_account n.deposit_account w).1

  abbrev pub after_key : W
  after_key = (n.view_access_key n.deposit_account after_funding).1

  abbrev pub after_block : W
  after_block = (n.latest_block after_key).1

  -- The steps of `transfer_to`, from the last to the first
  abbrev with_args : String → String → ℕ → Exec W PaymentError TxResult
  with_args args block_hash nonce = do
    usdc_contract ← ok_or (n.parse_account n.usdc_contract) internal
    let tx = transfer_transaction n usdc_contract args nonce block_hash
    broadcast_tx_commit n tx (n.sign tx)

  abbrev with_block : String → ℕ → String → Exec W PaymentError TxResult
  with_block receiver nonce block_hash = do
    args ←
        ok_or (n.transfer_args receiver amount (text_append "Sweep to operator " destination))
          internal
    with_args args block_hash nonce

  abbrev with_nonce : String → ℕ → Exec W PaymentError TxResult
  with_nonce receiver nonce = do
    block_hash ← get_latest_block n
    with_block receiver nonce block_hash

  abbrev with_receiver : String → Exec W PaymentError TxResult
  with_receiver receiver = do nonce ← get_access_key n; with_nonce receiver nonce

  abbrev once_funded : Unit {0} → Exec W PaymentError TxResult
  once_funded u = do receiver ← ok_or (n.parse_account destination) internal; with_receiver receiver

  -- The transaction of a transfer: what it is made of, and that it was sent.
  pub record IsTransfer (r : TxResult) (end : W) : Type 0 where
    pub yocto : ℕ
    pub nonce : ℕ
    pub block_hash : String
    pub receiver : String
    pub contract : String
    pub args : String
    pub status : FinalExecutionStatus
    pub is_funded : (n.view_account n.deposit_account w).0 ≡ answered yocto
    pub enough : 1000000000000000000000 ≤ yocto
    pub of_key : (n.view_access_key n.deposit_account after_funding).0 ≡ answered nonce
    pub of_block : (n.latest_block after_key).0 ≡ some block_hash
    pub of_receiver : n.parse_account destination ≡ some receiver
    pub of_contract : n.parse_account n.usdc_contract ≡ some contract
    pub of_args :
        n.transfer_args receiver amount (text_append "Sweep to operator " destination) ≡ some args
    pub sent :
        let tx : Transaction = record {
          signer_id = n.deposit_account;
          nonce = (nonce + 1) % 2 ^ 64;
          receiver_id = contract;
          block_hash = block_hash;
          method_name = "ft_transfer";
          args = args;
          gas = 30000000000000;
          deposit = 1;
        } in
        ((n.broadcast tx (n.sign tx) after_block).0 ≡ some (status, r.tx_hash))
        × (end ≡ (n.broadcast tx (n.sign tx) after_block).1)
    pub outcome : IsOutcome status r
    pub no_number : r.block_number ≡ none

  funded-enough :
      (a : QueryAnswer ℕ) → funded a ≡ ok tt → (y : ℕ) × (a ≡ answered y) × (min_balance ≤ y)
  funded-enough (answered y) h = (y, refl, ground (arith, h))
  funded-enough QueryAnswer.call_failed h = absurd (cc)
  funded-enough QueryAnswer.unexpected_kind h = absurd (cc)

  asked-answered : (a : QueryAnswer ℕ) {k : ℕ} → asked a ≡ ok k → a ≡ answered k
  asked-answered (answered y) h = cc
  asked-answered QueryAnswer.call_failed h = absurd (cc)
  asked-answered QueryAnswer.unexpected_kind h = absurd (cc)

  -- A transfer that answers has found at least 0.001 NEAR on the deposit account and has sent, last of
  -- all, one signed transaction: a call of ft_transfer on the configured token with the arguments for
  -- the destination and the amount, one nonce past that of the account's access key, on the latest
  -- block. The answer is its hash, and success exactly if the node says it is final and succeeded; a
  -- failed transaction has no answer.
  pub transfer_to-IsTransfer :
      {r : TxResult}
      → (transfer_to n destination amount w).0 ≡ ok r
      → IsTransfer r (transfer_to n destination amount w).1
  unfolding transfer_to ensure_account_funded get_access_key get_latest_block broadcast_tx_commit
      transfer_transaction
  transfer_to-IsTransfer {r} h =
      let (u, f, h1, e1) = bind_through (ensure_account_funded n) once_funded w h in
      let (receiver, g2, h2, e2) =
        through_ok_or (n.parse_account destination) internal with_receiver after_funding h1 in
      let (nonce, g3, h3, e3) =
        bind_through (get_access_key n) (with_nonce receiver) after_funding h2 in
      let (block_hash, g4, h4, e4) =
        bind_through (get_latest_block n) (with_block receiver nonce) after_key h3 in
      let memo = text_append "Sweep to operator " destination in
      let (args, g5, h5, e5) =
        through_ok_or (n.transfer_args receiver amount memo) internal
          (λ args. with_args args block_hash nonce) after_block h4 in
      let (contract, g6, h6, e6) =
        through_ok_or (n.parse_account n.usdc_contract) internal
          (λ contract.
            let tx = transfer_transaction n contract args nonce block_hash in
            broadcast_tx_commit n tx (n.sign tx))
          after_block h5 in
      let tx = transfer_transaction n contract args nonce block_hash in
      let (status, reply, outcome, no_number) =
        committed-some (n.broadcast tx (n.sign tx) after_block).0 h6 in
      let (yocto, is_funded, enough) = funded-enough (n.view_account n.deposit_account w).0 f in
      record {
        yocto = yocto;
        nonce = nonce;
        block_hash = block_hash;
        receiver = receiver;
        contract = contract;
        args = args;
        status = status;
        is_funded = is_funded;
        enough = enough;
        of_key = asked-answered (n.view_access_key n.deposit_account after_funding).0 g3;
        of_block = ok_or-some (n.latest_block after_key).0 rpc_error g4;
        of_receiver = g2;
        of_contract = g6;
        of_args = g5;
        sent = (reply, e1 ∙ e2 ∙ e3 ∙ e4 ∙ e5 ∙ e6);
        outcome = outcome;
        no_number = no_number;
      }
