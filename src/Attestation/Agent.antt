-- ===== src/Attestation/Agent.antt =====
-- crates/dstack-client/src/client.rs: the client of the TEE agent behind its socket. `W` is the state of
-- the agent.
use signal_bot_tee.Common.{
  ℕ, zero, suc, ◌-◌, String, text_append, Bool, true, false, Option, none, some, [], ◌∷◌, ◌++◌,
  Result, ok, err, if◌then◌else◌, length, take,
}
use signal_bot_tee.Common.Exec.{Exec, ◌>>=◌, ok_or}
use signal_bot_tee.Common.Http.{success_status}
use signal_bot_tee.Platform.{Bytes, AppInfo}

-- `DstackError`, without the texts
pub data DstackError : Type 0 where
  hyper json quote_generation key_derivation socket_not_found : DstackError

-- The socket, serde_json, and the crates hex and base64; a body that cannot be read is `none`.
pub record Agent (W : Type 0) : Type 0 where
  pub socket_exists : W → Bool
  pub send : String → String → Option Bytes → W → Option (ℕ × Option Bytes) × W
  pub parse_info : Bytes → Option AppInfo
  pub parse_quote : Bytes → Option String
  pub parse_key : Bytes → Option String
  pub parse_cert : Bytes → Option String
  pub derive_key_request : String → Option String → Option Bytes
  pub hex_encode : Bytes → String
  pub hex_decode : String → Option Bytes
  pub base64_decode : String → Option Bytes

abbrev pub answer_of : Option (ℕ × Option Bytes) → Result DstackError Bytes
answer_of none = err hyper
answer_of (some (status, none)) = err hyper
answer_of (some (status, some body)) =
    if success_status status then ok body else err quote_generation

abbrev pub zeros : ℕ → Bytes
zeros zero = []
zeros (suc n) = 0 ∷ zeros n

abbrev pub report_size : ℕ
report_size = 64

-- "Pad or truncate report_data to 64 bytes"
unfoldable pub pad_report : Bytes → Bytes
pad_report report = take report_size report ++ zeros (report_size - length report)

module _ {W : Type 0} (a : Agent W) where
  unfoldable pub request : String → String → Option Bytes → Exec W DstackError Bytes
  unfolding success_status
  request method path body w =
      if a.socket_exists w
      then (let (reply, w') = a.send method path body w in (answer_of reply, w'))
      else (err socket_not_found, w)

  unfoldable pub get_app_info : Exec W DstackError AppInfo
  get_app_info = do body ← request "GET" "/Info" none; ok_or (a.parse_info body) json

  abbrev pub quote_path : Bytes → String
  quote_path report = text_append "/GetQuote?report_data=" (a.hex_encode (pad_report report))

  unfoldable pub get_quote : Bytes → Exec W DstackError String
  get_quote report = do
    body ← request "GET" (quote_path report) none
    ok_or (a.parse_quote body) json

  unfoldable pub derive_key : String → Option String → Exec W DstackError Bytes
  derive_key path subject = do
    body ← ok_or (a.derive_key_request path subject) json
    reply ← request "POST" "/DeriveKey" (some body)
    key ← ok_or (a.parse_key reply) json
    ok_or (a.hex_decode key) key_derivation

  unfoldable pub get_ra_tls_cert : Exec W DstackError Bytes
  get_ra_tls_cert = do
    reply ← request "GET" "/GetRaTlsCert" none
    cert ← ok_or (a.parse_cert reply) json
    ok_or (a.base64_decode cert) quote_generation

  abbrev pub is_ok : {A : Type 0} → Result DstackError A → Bool
  is_ok (ok x) = true
  is_ok (err e) = false

  unfoldable pub is_in_tee : W → Bool × W
  is_in_tee w =
      if a.socket_exists w
      then (let (info, w') = get_app_info w in (is_ok info, w'))
      else (false, w)
