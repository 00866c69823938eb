-- ===== src/Payments/Chains/Solana/Instructions.antt =====
-- What a transfer on Solana sends.
use signal_bot_tee.Common.{
  ℕ, String, ◌≡◌, ap, sym, ◌∙◌, arith, inl, inr, some, List, [], ◌∷◌, ◌++◌, ok, Bool-cases,
  Option-cases, if◌then◌else◌,
}
use signal_bot_tee.Common.Exec.{Result-cases}
use signal_bot_tee.Payments.Facilitator.{TxResult}
use signal_bot_tee.Payments.Chains.Solana.Transfer.{
  Instruction, SolanaWallet, token_account, account_instructions, transfer_instruction, transfer_to,
  create_associated_token_account, transfer_checked,
}

module _ {W : Type 0} (n : SolanaWallet W) (destination : String) (amount : ℕ) (w : W) where
  -- The instructions that were sent: the transfer of the amount, after the creation of the
  -- destination's account only if the node did not show it.
  pub record IsSent (r : TxResult) (end : W) : Type 0 where
    pub mint : String
    pub receiver : String
    pub hash : String
    pub of_mint : n.parse_pubkey n.usdc_mint ≡ some mint
    pub of_receiver : n.parse_pubkey destination ≡ some receiver
    pub sent :
        let there = n.get_account (token_account n receiver mint) w in
        let block = n.get_latest_blockhash there.1 in
        let move =
          transfer_checked
            (token_account n n.wallet_pubkey mint)
            mint
            (token_account n receiver mint)
            n.wallet_pubkey
            amount
            6 in
        let create = create_associated_token_account n.wallet_pubkey receiver mint in
        (block.0 ≡ some hash)
        × ((n.send_and_confirm
              (if there.0 then (move ∷ []) else (create ∷ move ∷ []))
              hash
              block.1).0
            ≡ ok r.tx_hash)
        × (end
            ≡ (n.send_and_confirm
                (if there.0 then (move ∷ []) else (create ∷ move ∷ []))
                hash
                block.1).1)

  -- A transfer that answers has sent one transfer of the amount, in the six decimals of USDC, from
  -- the wallet's account to the destination's, on the latest block, with the creation of the
  -- destination's account before it exactly if the node did not show that account; the answer is the
  -- signature, and nothing is sent after it.
  pub transfer_to-IsSent :
      {r : TxResult}
      → (transfer_to n destination amount w).0 ≡ ok r
      → IsSent r (transfer_to n destination amount w).1
  unfolding transfer_to account_instructions transfer_instruction
  transfer_to-IsSent {r} h = elim (Option-cases (n.parse_pubkey n.usdc_mint)) [
    | inl bad ↦ absurd (ground (arith, bad))
    | inr (mint, of_mint) ↦ elim (Option-cases (n.parse_pubkey destination)) [
      | inl bad ↦ absurd (ground (arith, of_mint, bad))
      | inr (receiver, of_receiver) ↦
          let there = n.get_account (token_account n receiver mint) w in
          let move = transfer_instruction n receiver mint amount in
          elim (Bool-cases (n.is_instruction move)) [
            | inr refused ↦ absurd (ground (arith, of_mint, of_receiver, refused))
            | inl fine ↦ elim (Option-cases (n.get_latest_blockhash there.1).0) [
              | inl bad ↦ absurd (ground (arith, of_mint, of_receiver, fine, bad))
              | inr (hash, of_block) ↦
                  let block = n.get_latest_blockhash there.1 in
                  let create = create_associated_token_account n.wallet_pubkey receiver mint in
                  let list : List Instruction =
                    if there.0 then (move ∷ []) else (create ∷ move ∷ []) in
                  let listed : account_instructions n receiver mint there.0 ++ (move ∷ []) ≡ list =
                    ground (arith) in
                  elim (Result-cases (n.send_and_confirm list hash block.1).0) [
                    | inr (e, failed) ↦
                        absurd
                          (ground (arith, of_mint, of_receiver, fine, of_block, listed, failed))
                    | inl (signature, done) ↦
                        let named : r.tx_hash ≡ signature =
                          ground (arith, of_mint, of_receiver, fine, of_block, listed, done) in
                        let ended : (transfer_to n destination amount w).1
                            ≡ (n.send_and_confirm list hash block.1).1 =
                          ground (arith, of_mint, of_receiver, fine, of_block, listed) in
                        record {
                          mint = mint;
                          receiver = receiver;
                          hash = hash;
                          of_mint = of_mint;
                          of_receiver = of_receiver;
                          sent = (of_block, done ∙ ap ok (sym named), ended);
                        }
                  ]
            ]
          ]
    ]
  ]
