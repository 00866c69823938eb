-- ===== src/Registration/Client/Routes.antt =====
-- What the requests of the client name: the method and the URL of a request tell which operation it
-- is, and of which number.
use signal_bot_tee.Common.{
  String, text_append, str_eq, ◌≡◌, refl, ap, sym, ◌∙◌, Option, none, some, List, [], ◌∷◌,
  if◌then◌else◌,
}
use text.Mathlib.TextLemmas.{append_assoc, append_cancel_left, nil-append, append-nil}
use signal_bot_tee.Common.Split.{split, split-append, split_whole}
use signal_bot_tee.Registration.Client.{
  Method, get, post, put, delete, SignalRegistrationClient, health_check, register, verify,
  unregister, get_account, list_accounts, update_profile, set_username, delete_username,
  get_identity,
}
use signal_bot_tee.Registration.Client.Calls.{
  SignalCall, call_health, call_accounts, call_register, call_verify, call_unregister, call_account,
  call_profile, call_set_username, call_delete_username, call_identity, Target, to_health,
  to_accounts, to_register, to_unregister, to_account, to_profile, to_set_username,
  to_delete_username, to_identity, to_verify, target, Log, IsEncoding, perform, IsLogging,
}

module _ (c : SignalRegistrationClient Log) where
  abbrev method_of : SignalCall → Method
  method_of call_health = get
  method_of call_accounts = get
  method_of (call_register n captcha voice) = post
  method_of (call_verify n code pin) = post
  method_of (call_unregister n) = post
  method_of (call_account n) = get
  method_of (call_profile n name about) = put
  method_of (call_set_username n username) = post
  method_of (call_delete_username n) = delete
  method_of (call_identity n) = get

  abbrev verify_path : String → String → String
  verify_path n code =
      text_append "/v1/register/"
        (text_append (c.encode n) (text_append "/verify/" (c.encode code)))

  abbrev path_of : SignalCall → String
  path_of call_health = "/v1/health"
  path_of call_accounts = "/v1/accounts"
  path_of (call_register n captcha voice) = text_append "/v1/register/" (c.encode n)
  path_of (call_verify n code none) = verify_path n code
  path_of (call_verify n code (some pin)) =
      text_append (verify_path n code) (text_append "?pin=" (c.encode pin))
  path_of (call_unregister n) = text_append "/v1/unregister/" (c.encode n)
  path_of (call_account n) = text_append "/v1/accounts/" (c.encode n)
  path_of (call_profile n name about) = text_append "/v1/profiles/" (c.encode n)
  path_of (call_set_username n username) =
      text_append "/v1/accounts/" (text_append (c.encode n) "/username")
  path_of (call_delete_username n) =
      text_append "/v1/accounts/" (text_append (c.encode n) "/username")
  path_of (call_identity n) = text_append "/v1/identities/" (c.encode n)

  perform_logs :
      IsLogging c
      → (call : SignalCall) (w : Log)
      → perform c call w ≡ (method_of call, text_append c.base_url (path_of call)) ∷ w
  unfolding health_check register verify unregister get_account list_accounts update_profile
      set_username delete_username get_identity
  perform_logs logs call_health w = logs get _ _ w
  perform_logs logs call_accounts w = logs get _ _ w
  perform_logs logs (call_register n captcha voice) w = logs post _ _ w
  perform_logs logs (call_verify n code none) w =
      logs post _ _ w ∙ ap (λ u. (post, u) ∷ w) (simp (append_assoc))
  perform_logs logs (call_verify n code (some pin)) w =
      logs post _ _ w ∙ ap (λ u. (post, u) ∷ w) (simp (append_assoc))
  perform_logs logs (call_unregister n) w = logs post _ _ w
  perform_logs logs (call_account n) w = logs get _ _ w
  perform_logs logs (call_profile n name about) w = logs put _ _ w
  perform_logs logs (call_set_username n username) w =
      logs post _ _ w ∙ ap (λ u. (post, u) ∷ w) (simp (append_assoc))
  perform_logs logs (call_delete_username n) w =
      logs delete _ _ w ∙ ap (λ u. (delete, u) ∷ w) (simp (append_assoc))
  perform_logs logs (call_identity n) w = logs get _ _ w

  module _ (decode : String → String) where
    abbrev read_pin : List String → Option String
    read_pin (k ∷ p ∷ []) = some (decode p)
    read_pin _ = none

    abbrev read_code : String → List String → Option Target
    read_code n (code ∷ []) = some (to_verify n (decode code) none)
    read_code n (code ∷ q ∷ []) = some (to_verify n (decode code) (read_pin (split 61 q)))
    read_code n _ = none

    -- The target of a request, from the parts of its path
    abbrev read : Method → List String → Option Target
    read m (z ∷ v ∷ op ∷ []) = if str_eq op "health" then some to_health else some to_accounts
    read m (z ∷ v ∷ op ∷ n ∷ []) =
        if str_eq op "register"
        then some (to_register (decode n))
        else if str_eq op "unregister"
        then some (to_unregister (decode n))
        else if str_eq op "accounts"
        then some (to_account (decode n))
        else if str_eq op "profiles"
        then some (to_profile (decode n))
        else some (to_identity (decode n))
    read post (z ∷ v ∷ op ∷ n ∷ u ∷ []) = some (to_set_username (decode n))
    read _ (z ∷ v ∷ op ∷ n ∷ u ∷ []) = some (to_delete_username (decode n))
    read m (z ∷ v ∷ op ∷ n ∷ u ∷ code ∷ []) = read_code (decode n) (split 63 code)
    read m _ = none

    module _ (e : IsEncoding c.encode decode) where
      split-verify_path :
          (n code : String)
          → split 47 (verify_path n code)
            ≡ "" ∷ "v1" ∷ "register" ∷ c.encode n ∷ "verify" ∷ c.encode code ∷ []
      unfolding split
      split-verify_path n code =
          rw
            (
              split-append 47 "/v1/register/"
                  (text_append (c.encode n) (text_append "/verify/" (c.encode code))),
              split-append 47 (c.encode n) (text_append "/verify/" (c.encode code)),
              split-append 47 "/verify/" (c.encode code),
              split_whole 47 (c.encode n) (e.no_slash n),
              split_whole 47 (c.encode code) (e.no_slash code),
              append-nil (c.encode n),
              nil-append (c.encode n),
              nil-append (c.encode code),
            )
            refl

      split_pin :
          (code pin : String)
          → split 63 (text_append (c.encode code) (text_append "?pin=" (c.encode pin)))
            ≡ c.encode code ∷ text_append "pin=" (c.encode pin) ∷ []
      unfolding split
      split_pin code pin =
          rw
            (
              split-append 63 (c.encode code) (text_append "?pin=" (c.encode pin)),
              split_whole 63 (c.encode code) (e.no_question code),
              split-append 63 "?pin=" (c.encode pin),
              split_whole 63 (c.encode pin) (e.no_question pin),
              append-nil (c.encode code),
            )
            refl

      read_path :
          (call : SignalCall) → read (method_of call) (split 47 (path_of call)) ≡ some (target call)
      unfolding split
      read_path call_health = refl
      read_path call_accounts = refl
      read_path (call_register n captcha voice) =
          rw
            (
              split-append 47 "/v1/register/" (c.encode n),
              split_whole 47 (c.encode n) (e.no_slash n),
              nil-append (c.encode n),
              e.decodes n,
            )
            refl
      read_path (call_verify n code none) =
          rw
            (
              split-verify_path n code,
              split_whole 63 (c.encode code) (e.no_question code),
              e.decodes n,
              e.decodes code,
            )
            refl
      read_path (call_verify n code (some pin)) =
          rw
            (
              split-append 47 (verify_path n code) (text_append "?pin=" (c.encode pin)),
              split-verify_path n code,
              split-append 47 "?pin=" (c.encode pin),
              split_whole 47 (c.encode pin) (e.no_slash pin),
              split_pin code pin,
              split-append 61 "pin=" (c.encode pin),
              split_whole 61 (c.encode pin) (e.no_equals pin),
              nil-append (c.encode pin),
              e.decodes n,
              e.decodes code,
              e.decodes pin,
            )
            refl
      read_path (call_unregister n) =
          rw
            (
              split-append 47 "/v1/unregister/" (c.encode n),
              split_whole 47 (c.encode n) (e.no_slash n),
              nil-append (c.encode n),
              e.decodes n,
            )
            refl
      read_path (call_account n) =
          rw
            (
              split-append 47 "/v1/accounts/" (c.encode n),
              split_whole 47 (c.encode n) (e.no_slash n),
              nil-append (c.encode n),
              e.decodes n,
            )
            refl
      read_path (call_profile n name about) =
          rw
            (
              split-append 47 "/v1/profiles/" (c.encode n),
              split_whole 47 (c.encode n) (e.no_slash n),
              nil-append (c.encode n),
              e.decodes n,
            )
            refl
      read_path (call_set_username n username) =
          rw
            (
              split-append 47 "/v1/accounts/" (text_append (c.encode n) "/username"),
              split-append 47 (c.encode n) "/username",
              split_whole 47 (c.encode n) (e.no_slash n),
              append-nil (c.encode n),
              nil-append (c.encode n),
              e.decodes n,
            )
            refl
      read_path (call_delete_username n) =
          rw
            (
              split-append 47 "/v1/accounts/" (text_append (c.encode n) "/username"),
              split-append 47 (c.encode n) "/username",
              split_whole 47 (c.encode n) (e.no_slash n),
              append-nil (c.encode n),
              nil-append (c.encode n),
              e.decodes n,
            )
            refl
      read_path (call_identity n) =
          rw
            (
              split-append 47 "/v1/identities/" (c.encode n),
              split_whole 47 (c.encode n) (e.no_slash n),
              nil-append (c.encode n),
              e.decodes n,
            )
            refl

      -- Of a network that only logs, two calls that leave the same requests are about the same: they
      -- are the same operation on the same number, a verification with the same code and pin too.
      pub perform-target :
          IsLogging c
          → (call other : SignalCall) (w : Log) → perform c call w ≡ perform c other w
          → target call ≡ target other
      perform-target logs call other w same =
          let here = perform_logs logs call w in
          let there = perform_logs logs other w in
          let logged : (method_of call, text_append c.base_url (path_of call)) ∷ w
              ≡ (method_of other, text_append c.base_url (path_of other)) ∷ w =
            cc in
          let methods : method_of call ≡ method_of other = cc in
          let urls : text_append c.base_url (path_of call)
              ≡ text_append c.base_url (path_of other) =
            cc in
          let paths = append_cancel_left c.base_url _ _ urls in
          let one = read_path call in
          let two = read_path other in
          let both : some (target call) ≡ some (target other) = sym one ∙ rw (methods, paths) two in
          cc
