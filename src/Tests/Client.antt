-- ===== src/Tests/Client.antt =====
-- The requests of two calls, over a network that only logs and an encoding that escapes four characters.
use Prim.Native.Char.{Char, char, code, IsScalar}
use Prim.Native.String.{String}
use mathlib.Core.Path.{subst}
use signal_bot_tee.Common.{
  ℕ, arith, ◌≡◌, refl, sym, Bool, true, false, none, some, [], ◌∷◌, ◌⊎◌, ok, err, ◌==◌,
  if◌then◌else◌, inl, inr,
}
use signal_bot_tee.Common.Http.{HttpResponse, is_success}
use signal_bot_tee.Common.Text.{contains_text}
use signal_bot_tee.Common.Split.{has_char}
use signal_bot_tee.Registration.Outside.{signal_api}
use signal_bot_tee.Registration.Client.{
  SignalRegistrationClient, post, set_username, verify, get_identity,
}
use signal_bot_tee.Registration.Client.Calls.{target, call_set_username, Log, IsEncoding}
use signal_bot_tee.Registration.Client.Routes.{perform-target}

is_char :
    (d : Char)
    → ((q : IsScalar (code d)) → char (code d) q ≡ d)
    → (c : Char) → code c ≡ code d
    → c ≡ d
is_char d only (char n p) h = subst (λ k. (q : IsScalar k) → char k q ≡ d) (sym h) only p

abbrev escaped : Char → String → String
escaped c s =
    if code c == 37
    then String.◌∷◌ "%" (String.◌∷◌ "p" s)
    else if code c == 47
    then String.◌∷◌ "%" (String.◌∷◌ "s" s)
    else if code c == 63
    then String.◌∷◌ "%" (String.◌∷◌ "q" s)
    else if code c == 61
    then String.◌∷◌ "%" (String.◌∷◌ "e" s)
    else String.◌∷◌ c s

abbrev unescaped : Char → Char
unescaped c =
    if code c == 112 then "%" else if code c == 115 then "/" else if code c == 113 then "?" else "="

unfoldable escape_text : String → String
escape_text String.[] = ""
escape_text (String.◌∷◌ c s) = escaped c (escape_text s)

unfoldable unescape_text : Bool → String → String
unescape_text b String.[] = ""
unescape_text false (String.◌∷◌ c s) =
    let plain = unescape_text false s in
    let rest = unescape_text true s in if code c == 37 then rest else String.◌∷◌ c plain
unescape_text true (String.◌∷◌ c s) = String.◌∷◌ (unescaped c) (unescape_text false s)

unescape-escape : (s : String) → unescape_text false (escape_text s) ≡ s
unfolding escape_text unescape_text
unescape-escape String.[] = refl
unescape-escape (String.◌∷◌ c s) = ground (
  arith,
  unescape-escape s,
  is_char "%" (λ q. refl) c,
  is_char "/" (λ q. refl) c,
  is_char "?" (λ q. refl) c,
  is_char "=" (λ q. refl) c,
)

escape-has_char :
    (k : ℕ) (s : String) → (k ≡ 47) ⊎ (k ≡ 63) ⊎ (k ≡ 61) → has_char k (escape_text s) ≡ false
unfolding has_char escape_text
escape-has_char k String.[] h = refl
escape-has_char k (String.◌∷◌ c s) h = ground (arith, h, escape-has_char k s h)

abbrev answered : HttpResponse → SignalRegistrationClient Log
answered r = record {
  base_url = "http://signal";
  send = λ m url body w. (ok r, (m, url) ∷ w);
  parse_account = λ body. err "eof";
  parse_accounts = λ body. err "eof";
  parse_username = λ body. err "eof";
  parse_identities = λ body. ok [];
  unreadable_body = "eof";
  encode = escape_text;
  show_status = λ status. "404 Not Found";
}

abbrev missing : SignalRegistrationClient Log
missing = answered (record { status = 404; body = some "an incorrect code" })

code_refused : verify missing "+15550001" "1/2" (some "9") [] ≡ (
  err (signal_api "Invalid verification code"),
  (post, "http://signal/v1/register/+15550001/verify/1%s2?pin=9") ∷ [],
)
unfolding verify contains_text escape_text is_success
code_refused = refl

no_identity : (get_identity missing "+15550001" []).0 ≡ ok none
unfolding get_identity is_success
no_identity = refl

escape_text-IsEncoding : IsEncoding escape_text (unescape_text false)
escape_text-IsEncoding = record {
  decodes = unescape-escape;
  no_slash = λ s. escape-has_char 47 s (inl refl);
  no_question = λ s. escape-has_char 63 s (inr (inl refl));
  no_equals = λ s. escape-has_char 61 s (inr (inr refl));
}

perform-target_example :
    target (call_set_username "+15550001" "ada.01")
    ≡ target (call_set_username "+15550001" "bob.02")
unfolding set_username
perform-target_example =
    perform-target missing (unescape_text false) escape_text-IsEncoding (λ m url body w. refl)
      (call_set_username "+15550001" "ada.01") (call_set_username "+15550001" "bob.02") [] refl
