-- ===== src/Registration/Handlers/Races.antt =====
-- Where a handler's check is out of date when it commits, and what adoption does not check.
use signal_bot_tee.Common.{String, ◌≡◌, true, false, some, List, arith, ok}
use signal_bot_tee.Common.StringSet
use signal_bot_tee.Registration.Phone.{normalize_phone_number}
use signal_bot_tee.Registration.Registry
use signal_bot_tee.Registration.Registry.{
  PhoneNumberRecord, pending, verified, verify_ownership, mark_verified, new_record,
}
use signal_bot_tee.Registration.Transition.{insert-own, with_mut-some, is_registered-get}
use signal_bot_tee.Registration.Outside.{Outside}
use signal_bot_tee.Registration.Requests.{RegisterRequest, AdoptAccountRequest}
use signal_bot_tee.Registration.Proxy.{Proxy}
use signal_bot_tee.Registration.Handlers.{
  register_check, register_commit, verify_commit, adopt_account, adopt_check, adopt_listed,
}
use signal_bot_tee.Registration.Handlers.Registering.{registry-register_commit}
use signal_bot_tee.Registration.Handlers.Verifying.{registry-verify_commit}
use signal_bot_tee.Registration.Handlers.Adopting.{registry-adopt_commit}

module _ {W : Type 0} (o : Outside W) (n : String) (r : PhoneNumberRecord) (s : Proxy W)
    (found : Registry.get n s.registry ≡ some r) (waiting : r.status ≡ pending) where
  registered_after_verify : Registry.is_registered n (verify_commit o n s).1.registry ≡ true
  unfolding mark_verified
  registered_after_verify = rw (
    registry-verify_commit o n s,
    with_mut-some n mark_verified r s.registry found,
    is_registered-get,
    insert-own,
  )

  unregistered_after_commit :
      (request : RegisterRequest) (t : Proxy W)
      → Registry.is_registered n (register_commit o n request t).1.registry ≡ false
  unfolding new_record
  unregistered_after_commit request t =
      rw (registry-register_commit o n request t, is_registered-get, insert-own)

  -- A retried registration whose check passed while the number was pending, and which commits after
  -- another request has verified the number, turns the verified number back into a pending one.
  pub register_overtakes_verify :
      (request : RegisterRequest)
      → verify_ownership o.hash_secret request.ownership_secret r ≡ true
      → let verified_state = (verify_commit o n s).1 in
        let final = (register_commit o n request verified_state).1 in
        ((register_check o n request.ownership_secret s).0 ≡ ok tt)
        × (Registry.is_registered n verified_state.registry ≡ true)
        × (Registry.is_registered n final.registry ≡ false)
  unfolding register_check
  register_overtakes_verify request owner = (
    rw found (ground arith),
    registered_after_verify,
    unregistered_after_commit request (verify_commit o n s).1,
  )

  -- Adoption does not ask for the secret of a pending registration: whoever adopts a pending number
  -- that Signal lists holds it from then on, verified and under a secret of his own choice.
  pub adopt_takes_over :
      (number : String) (request : AdoptAccountRequest) (accounts : List String) (w : W)
      → normalize_phone_number number ≡ ok n
      → o.list_accounts s.world ≡ (ok accounts, w)
      → StringSet.contains n accounts ≡ true
      → Registry.get n (adopt_account o number request s).1.registry
        ≡ some (
            mark_verified (
              new_record o.hash_secret
                (o.now w)
                n
                request.ownership_secret
                request.model
                request.system_prompt))
  unfolding adopt_account adopt_check adopt_listed
  adopt_takes_over number request accounts w spelled listed there = rw (
    spelled,
    is_registered-get,
    found,
    waiting,
    listed,
    there,
    registry-adopt_commit o n request (record s { world = w }),
    insert-own,
  )
