-- ===== src/Registration/Transition.antt =====
-- How a handler may move the record of one number, and that it moves no other record.
use signal_bot_tee.Common.{
  String, ◌≡◌, ◌≢◌, refl, false, Option, none, some, arith, eq_iff, eq_refl, str_eq, if◌then◌else◌,
}
use signal_bot_tee.Common.Table
use signal_bot_tee.Registration.Registry
use signal_bot_tee.Registration.Registry.{
  PhoneNumberRecord, pending, verified, has_status, mark_verified, change_found,
}

-- The moves of a registration. Nothing leads to `failed`, and a verified record is changed only by
-- its owner's configuration or by its removal.
pub data Transition (n : String) (old new : Option PhoneNumberRecord) : Type 0 where
  kept : new ≡ old → Transition n old new
  started :
      (r : PhoneNumberRecord)
      → has_status verified old ≡ false
      → r.status ≡ pending
      → r.phone_number ≡ n
      → new ≡ some r
      → Transition n old new
  confirmed :
      (r : PhoneNumberRecord)
      → old ≡ some r
      → r.status ≡ pending
      → new ≡ some (mark_verified r)
      → Transition n old new
  adopted :
      (r : PhoneNumberRecord)
      → has_status verified old ≡ false
      → r.status ≡ verified
      → r.phone_number ≡ n
      → new ≡ some r
      → Transition n old new
  removed : new ≡ none → Transition n old new
  configured :
      (r r' : PhoneNumberRecord)
      → old ≡ some r
      → r.status ≡ verified
      → r'.status ≡ verified
      → r'.phone_number ≡ r.phone_number
      → r'.ownership_proof_hash ≡ r.ownership_proof_hash
      → new ≡ some r'
      → Transition n old new

pub record Moves (n : String) (old new : Registry.Registry) : Type 0 where
  pub own : Transition n (Registry.get n old) (Registry.get n new)
  pub others : (m : String) → n ≢ m → Registry.get m new ≡ Registry.get m old

pub Moves-refl : (n : String) (reg : Registry.Registry) → Moves n reg reg
Moves-refl n reg = record { own = kept refl; others = λ m h. refl }

pub get-insert :
    (n m : String) (r : PhoneNumberRecord) (reg : Registry.Registry)
    → Registry.get m (Registry.insert n r reg) ≡ (if str_eq n m then some r else Registry.get m reg)
unfolding Registry.get Registry.insert
get-insert n m r reg = Table.get-put n m r reg.records

pub get-remove :
    (n m : String) (reg : Registry.Registry)
    → Registry.get m (Registry.remove n reg) ≡ (if str_eq n m then none else Registry.get m reg)
unfolding Registry.get Registry.remove
get-remove n m reg = Table.get-remove n m reg.records

pub insert-own :
    (n : String) (r : PhoneNumberRecord) (reg : Registry.Registry)
    → Registry.get n (Registry.insert n r reg) ≡ some r
insert-own n r reg = rw (get-insert, eq_refl)

pub insert-others :
    (n m : String) (r : PhoneNumberRecord) (reg : Registry.Registry)
    → n ≢ m
    → Registry.get m (Registry.insert n r reg) ≡ Registry.get m reg
insert-others n m r reg h = ground (arith, get-insert n m r reg, eq_iff n m)

pub remove-own :
    (n : String) (reg : Registry.Registry) → Registry.get n (Registry.remove n reg) ≡ none
remove-own n reg = rw (get-remove, eq_refl)

pub remove-others :
    (n m : String) (reg : Registry.Registry)
    → n ≢ m
    → Registry.get m (Registry.remove n reg) ≡ Registry.get m reg
remove-others n m reg h = ground (arith, get-remove n m reg, eq_iff n m)

pub remove-Moves : (n : String) (reg : Registry.Registry) → Moves n reg (Registry.remove n reg)
remove-Moves n reg = record {
  own = removed (remove-own n reg);
  others = λ m h. remove-others n m reg h;
}

pub with_mut-some :
    (n : String) (f : PhoneNumberRecord → PhoneNumberRecord) (r : PhoneNumberRecord)
    (reg : Registry.Registry)
    → Registry.get n reg ≡ some r
    → Registry.with_mut n f reg ≡ Registry.insert n (f r) reg
unfolding Registry.with_mut Registry.get Registry.insert
with_mut-some n f r reg found = rw found

pub with_mut-none :
    (n : String) (f : PhoneNumberRecord → PhoneNumberRecord) (reg : Registry.Registry)
    → Registry.get n reg ≡ none
    → Registry.with_mut n f reg ≡ reg
unfolding Registry.with_mut Registry.get
with_mut-none n f reg missing = rw missing

pub is_registered-get :
    (n : String) (reg : Registry.Registry)
    → Registry.is_registered n reg ≡ has_status verified (Registry.get n reg)
unfolding Registry.is_registered Registry.get
is_registered-get n reg = refl
