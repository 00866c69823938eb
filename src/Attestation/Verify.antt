-- ===== src/Attestation/Verify.antt =====
-- crates/signal-bot/src/commands/verify.rs: the challenge of a message and the attestation for it.
use signal_bot_tee.Common.{
  String, str_eq, ltb, Bool, true, false, ◌||◌, Option, none, some, Result, ok, err, if◌then◌else◌,
  length, is_some, unwrap_or,
}
use signal_bot_tee.Common.Trim.{trim, strip_prefix}
use signal_bot_tee.Platform.{Bytes, AppInfo}
use signal_bot_tee.Attestation.Agent.{Agent, DstackError, is_in_tee, get_app_info, get_quote}

pub record OperatorAddresses : Type 0 where
  pub base : Option String
  pub near : Option String
  pub solana : Option String

unfoldable pub has_any : OperatorAddresses → Bool
has_any o = is_some o.base || is_some o.near || is_some o.solana

-- The handler, with the SHA-256 of the crate sha2 and `str::as_bytes`
pub record VerifyHandler (W : Type 0) : Type 0 where
  pub dstack : Agent W
  pub operator_addresses : Option OperatorAddresses
  pub as_bytes : String → Bytes
  pub sha256 : Bytes → Bytes

-- The text of an error is kept as the step that failed.
pub data AttestationError : Type 0 where
  not_in_tee : AttestationError
  no_app_info : DstackError → AttestationError
  no_quote : DstackError → AttestationError

pub record AttestationResult : Type 0 where
  pub in_tee : Bool
  pub compose_hash : Option String
  pub app_id : Option String
  pub quote : Option String
  pub challenge : Option String
  pub report_data_hex : Option String
  pub was_hashed : Bool
  pub failure : Option AttestationError
  pub operator_addresses : Option OperatorAddresses

-- `AttestationResult::default()`
abbrev pub no_result : AttestationResult
no_result = record {
  in_tee = false;
  compose_hash = none;
  app_id = none;
  quote = none;
  challenge = none;
  report_data_hex = none;
  was_hashed = false;
  failure = none;
  operator_addresses = none;
}

-- What is left of a message after its command
abbrev pub nonempty : Option String → Option String
nonempty none = none
nonempty (some s) = if str_eq s "" then none else some s

unfoldable pub parse_challenge : String → Option String
unfolding trim strip_prefix
parse_challenge text =
    nonempty
      (elim (strip_prefix "!verify" (trim text)) [ none ↦ none | some rest ↦ some (trim rest) ])

module _ {W : Type 0} (h : VerifyHandler W) where
  abbrev pub challenge_bytes : Option String → Bytes
  challenge_bytes challenge = h.as_bytes (unwrap_or challenge "no-challenge-provided")

  abbrev pub is_long : Bytes → Bool
  is_long bytes = ltb 64 (length bytes)

  -- "Prepare report_data - hash if challenge is too long"
  unfoldable pub report_data : Option String → Bytes
  report_data challenge =
      if is_long (challenge_bytes challenge)
      then h.sha256 (challenge_bytes challenge)
      else challenge_bytes challenge

  abbrev pub quoted : Option String → AppInfo → Result DstackError String → AttestationResult
  quoted challenge info (ok quote) = record {
    in_tee = true;
    compose_hash = info.compose_hash;
    app_id = info.app_id;
    quote = some quote;
    challenge = challenge;
    report_data_hex = some (h.dstack.hex_encode (report_data challenge));
    was_hashed = is_long (challenge_bytes challenge);
    failure = none;
    operator_addresses = h.operator_addresses;
  }
  quoted challenge info (err e) = record no_result {
    in_tee = true;
    compose_hash = info.compose_hash;
    app_id = info.app_id;
    failure = some (no_quote e);
    report_data_hex = some (h.dstack.hex_encode (report_data challenge));
    was_hashed = is_long (challenge_bytes challenge);
  }

  abbrev pub attest : Option String → Result DstackError AppInfo → W → AttestationResult × W
  attest challenge (err e) w =
      (record no_result { in_tee = true; failure = some (no_app_info e) }, w)
  attest challenge (ok info) w =
      let (reply, w') = get_quote h.dstack (report_data challenge) w in
      (quoted challenge info reply, w')

  unfoldable pub generate_attestation : Option String → W → AttestationResult × W
  generate_attestation challenge w =
      let (inside, w1) = is_in_tee h.dstack w in
      if inside
      then (let (info, w2) = get_app_info h.dstack w1 in attest challenge info w2)
      else (record no_result { failure = some not_in_tee }, w1)
