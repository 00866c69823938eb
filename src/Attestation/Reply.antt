-- ===== src/Attestation/Reply.antt =====
-- crates/signal-bot/src/commands/verify.rs: the text of the reply, and the handler.
use signal_bot_tee.Common.{
  ℕ, zero, suc, ◌≤◌, String, text_append, Bool, false, Option, none, some, List, [], ◌∷◌, ◌++◌, map,
  if◌then◌else◌, length, take, drop, ◌≡◌, refl, ap, ◌∙◌, arith, take-append-drop, length-drop,
}
use signal_bot_tee.Common.Text.{is_cut}
use signal_bot_tee.Platform.{Bytes}
use signal_bot_tee.Attestation.Verify.{
  VerifyHandler, AttestationResult, AttestationError, OperatorAddresses, has_any, parse_challenge,
  generate_attestation,
}

-- What the text is made with: the words of an error, and `String::from_utf8_lossy`
pub record Wording : Type 0 where
  pub error_text : AttestationError → String
  pub as_bytes : String → Bytes
  pub from_utf8_lossy : Bytes → String

-- `lines.join("\n")`
unfoldable pub join : List String → String
join [] = ""
join (l ∷ []) = l
join (l ∷ k ∷ ls) = text_append l (text_append "\n" (join (k ∷ ls)))

-- `bytes.chunks(64)`, each round of which takes a byte at least
unfoldable pub chunks : ℕ → Bytes → List Bytes
chunks zero bytes = []
chunks (suc fuel) [] = []
chunks (suc fuel) (b ∷ bytes) = take 64 (b ∷ bytes) ∷ chunks fuel (drop 64 (b ∷ bytes))

abbrev pub joined_bytes : List Bytes → Bytes
joined_bytes [] = []
joined_bytes (c ∷ cs) = c ++ joined_bytes cs

-- With a round for each byte the chunks are all of the bytes.
chunks_whole :
    (fuel : ℕ) (bytes : Bytes) → length bytes ≤ fuel → joined_bytes (chunks fuel bytes) ≡ bytes
unfolding chunks
chunks_whole zero [] h = refl
chunks_whole zero (b ∷ bytes) h = absurd (omega arith)
chunks_whole (suc fuel) [] h = refl
chunks_whole (suc fuel) (b ∷ bytes) h =
    ap (λ rest. take 64 (b ∷ bytes) ++ rest)
      (chunks_whole fuel (drop 64 (b ∷ bytes)) (omega (arith, length-drop 64 (b ∷ bytes), h)))
    ∙ take-append-drop 64 (b ∷ bytes)

abbrev pub line_if_some : String → Option String → String → List String
line_if_some before none after = []
line_if_some before (some s) after = text_append before (text_append s after) ∷ []

-- Whether the cut of the log line falls inside a character of the challenge.
unfoldable pub log_panics : Option String → Bool
unfolding is_cut
log_panics none = false
log_panics (some challenge) = is_cut 20 challenge

module _ (t : Wording) where
  not_in_tee_lines : Option AttestationError → List String
  not_in_tee_lines failure =
      ("**⚠\u{fe0f} NOT RUNNING IN TEE**" ∷ "" ∷ [])
      ++ (line_if_some "Error: " (elim failure [ none ↦ none | some e ↦ some (t.error_text e) ]) ""
          ++ ("" ∷ "This bot is NOT running in a Trusted Execution Environment."
              ∷ "Your messages may not be private." ∷ []))

  unfoldable pub challenge_lines : Option String → Bool → List String
  challenge_lines none was_hashed =
      "**Your Challenge:** (none provided)"
      ∷ "_Tip: Use `!verify <your-random-text>` for cryptographic proof_" ∷ "" ∷ []
  challenge_lines (some challenge) was_hashed =
      text_append "**Your Challenge:** " challenge
      ∷ (if was_hashed
          then "_Note: Challenge was >64 bytes, so it was hashed with SHA-256_" ∷ "" ∷ []
          else "" ∷ [])

  report_lines : Option String → Bool → List String
  report_lines none was_hashed = []
  report_lines (some report_data_hex) was_hashed =
      "**Report Data (hex):**"
      ∷ text_append "```\n" (text_append report_data_hex "\n```")
      ∷ (if was_hashed
          then "_This is the SHA-256 hash of your challenge._"
          else "_This is your challenge encoded in hex._")
      ∷ ""
      ∷ []

  quote_lines : Bool → String → List String
  unfolding chunks
  quote_lines was_hashed quote =
      let bytes = t.as_bytes quote in
      ("**TDX Quote (base64):**" ∷ "```" ∷ [])
      ++ (map t.from_utf8_lossy (chunks (length bytes) bytes)
          ++ ("```"
              ∷ ""
              ∷ "**How to Verify:**"
              ∷ "1. **Verify Report Data:** The report_data field in the quote should match the hex value above"
              ∷ (if was_hashed
                  then "   - Since your challenge was >64 bytes, verify: `echo -n '<your-challenge>' | sha256sum`"
                  else "   - To verify: `echo -n '<your-challenge>' | xxd -p`")
              ∷ ""
              ∷ "2. **Verify Quote Signature:** Use the TEE Attestation Explorer"
              ∷ "   - Go to: https://proof.t16z.com"
              ∷ "   - Paste the TDX quote (hex format) or upload as binary"
              ∷ "   - The quote signature is verified against Intel TDX hardware"
              ∷ ""
              ∷ "3. **Verify Docker Compose:** Check that compose_hash matches the expected configuration"
              ∷ "   - Repository: https://github.com/zmanian/signal-bot-tee"
              ∷ "   - Compare the compose_hash above with: `sha256sum docker-compose.yaml`"
              ∷ "   - This proves the bot is running the expected code"
              ∷ []))

  -- The quote, or why there is none
  quote_or_error_lines : AttestationResult → List String
  unfolding quote_lines
  quote_or_error_lines r = elim r.quote [
    | some quote ↦ quote_lines r.was_hashed quote
    | none ↦
        line_if_some "**Quote Error:** "
          (elim r.failure [ none ↦ none | some e ↦ some (t.error_text e) ]) ""
  ]

  operator_lines : Option OperatorAddresses → List String
  operator_lines none = []
  operator_lines (some o) =
      if has_any o
      then (("" ∷ "**Operator Fund Addresses:**" ∷ [])
          ++ (line_if_some "- Base: `" o.base "`"
              ++ (line_if_some "- NEAR: `" o.near "`"
                  ++ (line_if_some "- Solana: `" o.solana "`"
                      ++ ("" ∷ "_Deposits are automatically swept to these addresses._"
                          ∷ "_Verify these match the expected operator by checking the compose hash._"
                          ∷ [])))))
      else []

  -- `format_response`, before its lines are joined
  unfoldable pub response_lines : AttestationResult → List String
  unfolding not_in_tee_lines challenge_lines report_lines quote_or_error_lines operator_lines
  response_lines r =
      if r.in_tee
      then (("**🔐 TEE Attestation**" ∷ "" ∷ [])
          ++ (challenge_lines r.challenge r.was_hashed
              ++ (report_lines r.report_data_hex r.was_hashed
                  ++ (("**TEE Info:**" ∷ [])
                      ++ (line_if_some "- Compose Hash: " r.compose_hash ""
                          ++ (line_if_some "- App ID: " r.app_id ""
                              ++ (("" ∷ [])
                                  ++ (quote_or_error_lines r
                                      ++ (operator_lines r.operator_addresses
                                          ++ (""
                                              ∷ "**NEAR AI:** Verify separately at https://docs.near.ai/cloud/verification/"
                                              ∷ []))))))))))
      else not_in_tee_lines r.failure

  unfoldable pub format_response : AttestationResult → String
  unfolding response_lines join
  format_response r = join (response_lines r)

  -- `VerifyHandler::execute`; `none` is a panic.
  unfoldable pub verify : {W : Type 0} → VerifyHandler W → String → W → Option (String × W)
  unfolding log_panics parse_challenge
  verify h text w =
      if log_panics (parse_challenge text)
      then none
      else (let (r, w') = generate_attestation h (parse_challenge text) w in
          some (format_response r, w'))
