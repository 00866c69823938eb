-- ===== src/Attestation/Binding.antt =====
-- What a quote of the verify command says of the challenge.
use mathlib.Core.Path.{subst}
use signal_bot_tee.Common.{
  ℕ, zero, suc, ◌-◌, ◌≤◌, ◌<◌, ◌⊎◌, Bool, false, [], ◌∷◌, ◌++◌, take, length, text_append,
  unwrap_or, String, ◌≡◌, refl, ap, sym, ◌∙◌, true, Option, none, some, Result, ok, err, arith, inl,
  inr, Bool-cases,
}
use signal_bot_tee.Common.Exec.{bind_ok, ok_or}
use signal_bot_tee.Common.Http.{success_status}
use signal_bot_tee.Platform.{Bytes, AppInfo}
use signal_bot_tee.Attestation.Agent.{
  Agent, DstackError, json, answer_of, request, get_quote, quote_path, zeros, pad_report, is_in_tee,
  get_app_info,
}
use signal_bot_tee.Attestation.Verify.{
  VerifyHandler, AttestationResult, report_data, challenge_bytes, is_long, quoted, attest,
  generate_attestation,
}

-- A byte zero for each that is missing of `size`, and nothing past it
abbrev pub zero_bytes : ℕ → Bytes
zero_bytes zero = []
zero_bytes (suc n) = 0 ∷ zero_bytes n

abbrev pub padded_to : ℕ → Bytes → Bytes
padded_to size report = take size report ++ zero_bytes (size - length report)

zeros-zero_bytes : (n : ℕ) → zeros n ≡ zero_bytes n
zeros-zero_bytes zero = refl
zeros-zero_bytes (suc n) = ap (λ b. 0 ∷ b) (zeros-zero_bytes n)

pad_report-padded_to : (report : Bytes) → pad_report report ≡ padded_to 64 report
unfolding pad_report
pad_report-padded_to report = ap (λ b. take 64 report ++ b) (zeros-zero_bytes (64 - length report))

-- The agent answered a request for a quote of this report data, in some state, with this quote.
pub record IsQuoteOf {W : Type 0} (a : Agent W) (report : Bytes) (quote : String) : Type 0 where
  pub asked : W
  pub status : ℕ
  pub body : Bytes
  pub sent :
      (a.send "GET"
        (text_append "/GetQuote?report_data=" (a.hex_encode (padded_to 64 report)))
        none
        asked).0
      ≡ some (status, some body)
  pub succeeded : success_status status ≡ true
  pub parsed : a.parse_quote body ≡ some quote

module _ {W : Type 0} (a : Agent W) where
  answer_of-ok :
      (reply : Option (ℕ × Option Bytes)) {body : Bytes}
      → answer_of reply ≡ ok body
      → (status : ℕ) × (reply ≡ some (status, some body)) × (success_status status ≡ true)
  answer_of-ok none h = absurd (cc)
  answer_of-ok (some (status, none)) h = absurd (cc)
  answer_of-ok (some (status, some b)) h = elim (Bool-cases (success_status status)) [
    | inl good ↦ (status, ground (arith, h), good)
    | inr bad ↦ absurd (ground (arith, h))
  ]

  request-sent :
      (method path : String) (payload : Option Bytes) (w : W) {body : Bytes}
      → (request a method path payload w).0 ≡ ok body
      → (status : ℕ) × ((a.send method path payload w).0 ≡ some (status, some body))
        × (success_status status ≡ true)
  unfolding request
  request-sent method path payload w h = elim (Bool-cases (a.socket_exists w)) [
    | inl there ↦ answer_of-ok (a.send method path payload w).0 (ground (arith, h))
    | inr gone ↦ absurd (ground (arith, h))
  ]

  parse-ok :
      {A : Type 0} (parsed : Option A) (w : W) {x : A}
      → (ok_or {S = W} parsed json w).0 ≡ ok x
      → parsed ≡ some x
  parse-ok none w h = absurd (cc)
  parse-ok (some x) w h = cc

  get_quote-IsQuoteOf :
      (report : Bytes) (w : W) {q : String} → (get_quote a report w).0 ≡ ok q → IsQuoteOf a report q
  unfolding get_quote
  get_quote-IsQuoteOf report w {q} h =
      let asking = request a "GET" (quote_path a report) none in
      let (body, answered, whole) = bind_ok asking (λ body. ok_or (a.parse_quote body) json) w h in
      let (status, sent, good) = request-sent "GET" (quote_path a report) none w answered in
      record {
        asked = w;
        status = status;
        body = body;
        sent =
            subst
              (λ b.
                (a.send "GET" (text_append "/GetQuote?report_data=" (a.hex_encode b)) none w).0
                ≡ some (status, some body))
              (pad_report-padded_to report) sent;
        succeeded = good;
        parsed =
            parse-ok (a.parse_quote body) (asking w).1
              (ap (λ (r : Result DstackError String × W). r.0) (sym whole) ∙ h);
      }

module _ {W : Type 0} (h : VerifyHandler W) where
  -- The report data of a challenge: its bytes, or their hash if they are more than 64; where there is
  -- no challenge a fixed text stands for it.
  abbrev pub IsReportOf : Option String → Bytes → Bool → Type 0
  IsReportOf challenge report hashed =
      let bytes = h.as_bytes (unwrap_or challenge "no-challenge-provided") in
      ((length bytes ≤ 64) × (report ≡ bytes) × (hashed ≡ false))
      ⊎ ((64 < length bytes) × (report ≡ h.sha256 bytes) × (hashed ≡ true))

  report_data-IsReportOf :
      (challenge : Option String)
      → IsReportOf challenge (report_data h challenge) (is_long h (challenge_bytes h challenge))
  unfolding report_data
  report_data-IsReportOf challenge = elim (Bool-cases (is_long h (challenge_bytes h challenge))) [
    | inl long ↦ inr (ground (arith, long), rw long refl, long)
    | inr short ↦ inl (ground (arith, short), rw short refl, short)
  ]

  -- What a reply with a quote rests on.
  pub record IsAttested (challenge : Option String) (r : AttestationResult) (q : String)
      : Type 0 where
    pub report : Bytes
    pub of_challenge : IsReportOf challenge report r.was_hashed
    pub quote_of : IsQuoteOf h.dstack report q
    pub shown : r.report_data_hex ≡ some (h.dstack.hex_encode report)
    pub repeated : r.challenge ≡ challenge
    pub inside : r.in_tee ≡ true

  quoted-IsAttested :
      (challenge : Option String) (info : AppInfo) (reply : Result DstackError String) {q : String}
      → ((p : String) → reply ≡ ok p → IsQuoteOf h.dstack (report_data h challenge) p)
      → (quoted h challenge info reply).quote ≡ some q
      → IsAttested challenge (quoted h challenge info reply) q
  quoted-IsAttested challenge info (err e) asked shown = absurd (cc)
  quoted-IsAttested challenge info (ok p) {q} asked shown = record {
    report = report_data h challenge;
    of_challenge = report_data-IsReportOf challenge;
    quote_of = asked q (cc);
    shown = refl;
    repeated = refl;
    inside = refl;
  }

  attest-IsAttested :
      (challenge : Option String) (info : Result DstackError AppInfo) (w : W) {q : String}
      → (attest h challenge info w).0.quote ≡ some q
      → IsAttested challenge (attest h challenge info w).0 q
  attest-IsAttested challenge (err e) w shown = absurd (cc)
  attest-IsAttested challenge (ok info) w shown =
      quoted-IsAttested challenge info (get_quote h.dstack (report_data h challenge) w).0
        (λ p answered. get_quote-IsQuoteOf h.dstack (report_data h challenge) w answered) shown

  -- A result with a quote, whatever the agent answers, is from inside the TEE and rests on a successful
  -- answer of the agent to a request for a quote of the report data: the bytes of the challenge, or
  -- of a fixed text where there is none, hashed if they are more than 64, as the result says, and
  -- filled up with zeros or cut to 64 bytes. The result shows this report data and the challenge.
  pub generate_attestation-IsAttested :
      (challenge : Option String) (w : W) {q : String}
      → (generate_attestation h challenge w).0.quote ≡ some q
      → IsAttested challenge (generate_attestation h challenge w).0 q
  unfolding generate_attestation
  generate_attestation-IsAttested challenge w shown = elim (Bool-cases (is_in_tee h.dstack w).0) [
    | inl inside ↦ rw inside (
        attest-IsAttested challenge (get_app_info h.dstack (is_in_tee h.dstack w).1).0
          (get_app_info h.dstack (is_in_tee h.dstack w).1).1 (ground (arith, shown, inside)))
    | inr outside ↦ absurd (ground (arith, shown, outside))
  ]
