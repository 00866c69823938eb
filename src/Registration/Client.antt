-- ===== src/Registration/Client.antt =====
-- crates/signal-registration-proxy/src/signal/client.rs: the requests of the proxy to the Signal CLI.
pub mod Calls
pub mod Routes
use signal_bot_tee.Common.{
  ℕ, String, text_append, str_eq, Bool, true, false, ◌==◌, ◌||◌, Option, none, some, List, [], ◌∷◌,
  Result, ok, err, if◌then◌else◌, unwrap_or,
}
use signal_bot_tee.Common.Http.{HttpResponse, is_success}
use signal_bot_tee.Common.Text.{contains_text}
use signal_bot_tee.Registration.Outside.{ProxyError, signal_api, UsernameInfo, Call}

pub record AccountInfo : Type 0 where
  pub number : String
  pub uuid : Option String
  pub username : Option String

pub record IdentityInfo : Type 0 where
  pub number : String
  pub status : String
  pub fingerprint : String
  pub safety_number : String
  pub uuid : Option String

pub data Method : Type 0 where
  get post put delete : Method

-- The bodies: `RegisterRequestBody`, `ProfileRequestBody` and `UsernameRequestBody`
pub data RequestBody : Type 0 where
  empty : RequestBody
  -- captcha, use_voice
  register_body : Option String → Option Bool → RequestBody
  -- name, about
  profile_body : Option String → Option String → RequestBody
  username_body : String → RequestBody

-- The network, whose requests may fail on the way with an error of reqwest, serde_json, the crate
-- urlencoding, and the text of a status.
pub record SignalRegistrationClient (W : Type 0) : Type 0 where
  pub base_url : String
  pub send : Method → String → RequestBody → W → Result String HttpResponse × W
  pub parse_account : String → Result String AccountInfo
  pub parse_accounts : String → Result String (List String)
  pub parse_username : String → Result String UsernameInfo
  pub parse_identities : String → Result String (List IdentityInfo)
  pub unreadable_body : String
  pub encode : String → String
  pub show_status : ℕ → String

-- `format!("{} - {}")` of a status and a body, after what has failed
abbrev pub failure : (ℕ → String) → String → HttpResponse → ProxyError
failure show_status what r = signal_api (
    text_append what (text_append (show_status r.status) (text_append " - " (unwrap_or r.body ""))))

-- What is made of an answer: `?` on the request, an error by `refuse` if it is no success.
abbrev pub answer :
    {A : Type 0}
    → (HttpResponse → ProxyError)
    → (HttpResponse → Result ProxyError A)
    → Result String HttpResponse
    → Result ProxyError A
answer refuse accept (err e) = err (signal_api e)
answer refuse accept (ok r) = if is_success r then accept r else err (refuse r)

abbrev pub accepted : HttpResponse → Result ProxyError (Unit {0})
accepted r = ok tt

-- `response.json()` with its error
abbrev pub json :
    {A : Type 0} → String → String → (String → Result String A) → HttpResponse → Result ProxyError A
json unreadable what parse r = elim r.body [
  | none ↦ err (signal_api (text_append what unreadable))
  | some body ↦ elim (parse body) [ ok a ↦ ok a | err e ↦ err (signal_api (text_append what e)) ]
]

-- The first identity of a number
unfoldable pub find_identity : String → List IdentityInfo → Option IdentityInfo
find_identity phone_number [] = none
find_identity phone_number (i ∷ is) =
    let rest = find_identity phone_number is in
    if str_eq i.number phone_number then some i else rest

abbrev pub own_identity :
    String → Result ProxyError (List IdentityInfo) → Result ProxyError (Option IdentityInfo)
own_identity phone_number (err e) = err e
own_identity phone_number (ok is) = ok (find_identity phone_number is)

module _ {W : Type 0} (c : SignalRegistrationClient W) where
  -- A path that ends in an encoded number
  abbrev pub path_to : String → String → String
  path_to path phone_number = text_append c.base_url (text_append path (c.encode phone_number))

  unfoldable pub health_check : W → Bool × W
  unfolding is_success
  health_check w =
      let (reply, w') = c.send get (text_append c.base_url "/v1/health") empty w in
      ((elim reply [ ok r ↦ is_success r | err e ↦ false ]), w')

  abbrev pub registration_refused : HttpResponse → ProxyError
  registration_refused r =
      if contains_text "captcha" (unwrap_or r.body "")
      then signal_api "CAPTCHA required. Please provide a captcha token."
      else failure c.show_status "Registration failed: " r

  unfoldable pub register : String → Option String → Bool → Call W (Unit {0})
  unfolding is_success contains_text
  register phone_number captcha use_voice w =
      let (reply, w') =
        c.send post (path_to "/v1/register/" phone_number) (register_body captcha (some use_voice))
          w in
      (answer registration_refused accepted reply, w')

  abbrev pub verification_refused : HttpResponse → ProxyError
  verification_refused r =
      let body = unwrap_or r.body "" in
      if contains_text "Invalid verification code" body || contains_text "incorrect" body
      then signal_api "Invalid verification code"
      else failure c.show_status "Verification failed: " r

  -- `?pin=` only where there is a pin
  abbrev pub with_pin : Option String → String → String
  with_pin none url = url
  with_pin (some pin) url = text_append url (text_append "?pin=" (c.encode pin))

  unfoldable pub verify : String → String → Option String → Call W (Unit {0})
  unfolding is_success contains_text
  verify phone_number code pin w =
      let url =
        text_append (path_to "/v1/register/" phone_number)
          (text_append "/verify/" (c.encode code)) in
      let (reply, w') = c.send post (with_pin pin url) empty w in
      (answer verification_refused accepted reply, w')

  unfoldable pub unregister : String → Call W (Unit {0})
  unfolding is_success
  unregister phone_number w =
      let (reply, w') = c.send post (path_to "/v1/unregister/" phone_number) empty w in
      (answer (failure c.show_status "Unregister failed: ") accepted reply, w')

  unfoldable pub get_account : String → Call W AccountInfo
  unfolding is_success
  get_account phone_number w =
      let (reply, w') = c.send get (path_to "/v1/accounts/" phone_number) empty w in
      (
        answer (failure c.show_status "Get account failed: ")
            (json c.unreadable_body "Failed to parse account response: " c.parse_account) reply,
        w',
      )

  unfoldable pub list_accounts : Call W (List String)
  unfolding is_success
  list_accounts w =
      let (reply, w') = c.send get (text_append c.base_url "/v1/accounts") empty w in
      (
        answer (failure c.show_status "List accounts failed: ")
            (json c.unreadable_body "Failed to parse accounts response: " c.parse_accounts) reply,
        w',
      )

  unfoldable pub update_profile : String → Option String → Option String → Call W (Unit {0})
  unfolding is_success
  update_profile phone_number name about w =
      let (reply, w') =
        c.send put (path_to "/v1/profiles/" phone_number) (profile_body name about) w in
      (answer (failure c.show_status "Profile update failed: ") accepted reply, w')

  unfoldable pub set_username : String → String → Call W UsernameInfo
  unfolding is_success
  set_username phone_number username w =
      let url = text_append (path_to "/v1/accounts/" phone_number) "/username" in
      let (reply, w') = c.send post url (username_body username) w in
      (
        answer (failure c.show_status "Set username failed: ")
            (json c.unreadable_body "Failed to parse username response: " c.parse_username) reply,
        w',
      )

  unfoldable pub delete_username : String → Call W (Unit {0})
  unfolding is_success
  delete_username phone_number w =
      let url = text_append (path_to "/v1/accounts/" phone_number) "/username" in
      let (reply, w') = c.send delete url empty w in
      (answer (failure c.show_status "Delete username failed: ") accepted reply, w')

  -- "404 is expected if no identity exists yet"
  abbrev pub identity_of :
      String → Result String HttpResponse → Result ProxyError (Option IdentityInfo)
  identity_of phone_number (err e) = err (signal_api e)
  identity_of phone_number (ok r) =
      if is_success r
      then own_identity phone_number
          (json c.unreadable_body "Failed to parse identity response: " c.parse_identities r)
      else if r.status == 404
      then ok none
      else err (failure c.show_status "Get identity failed: " r)

  unfoldable pub get_identity : String → Call W (Option IdentityInfo)
  unfolding is_success find_identity
  get_identity phone_number w =
      let (reply, w') = c.send get (path_to "/v1/identities/" phone_number) empty w in
      (identity_of phone_number reply, w')
