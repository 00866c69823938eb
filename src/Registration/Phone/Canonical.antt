-- ===== src/Registration/Phone/Canonical.antt =====
-- A normalized number is a fixed canonical spelling of its digits.
use signal_bot_tee.Common.{
  ◌≤◌, String, ◌≡◌, refl, sym, ap, ◌∙◌, true, ◌⊎◌, ◌↔◌, inl, inr, arith, ok, Bool-cases,
}
use signal_bot_tee.Registration.Phone.{
  is_ascii_digit, digits_of, text_length, has_plus, plus, normalize_phone_number,
}

digits_of_idem : (s : String) → digits_of (digits_of s) ≡ digits_of s
unfolding digits_of
digits_of_idem String.[] = refl
digits_of_idem (String.◌∷◌ c s) = elim (Bool-cases (is_ascii_digit c)) [
  | inl digit ↦ rw (digit, digit, digits_of_idem s)
  | inr other ↦ rw (other, digits_of_idem s)
]

digits_of-plus : (s : String) → digits_of (plus (digits_of s)) ≡ digits_of s
unfolding digits_of is_ascii_digit
digits_of-plus s = digits_of_idem s

-- Plus, and seven to fifteen digits.
pub record IsE164 (m : String) : Type 0 where
  pub digits : String
  pub spelled : m ≡ plus digits
  pub only_digits : digits_of digits ≡ digits
  pub long_enough : 7 ≤ text_length digits
  pub short_enough : text_length digits ≤ 15

abbrev pub Accepts : String → Type 0
Accepts s =
    (7 ≤ text_length (digits_of s))
    × (text_length (digits_of s) ≤ 15)
    × ((has_plus s ≡ true) ⊎ (10 ≤ text_length (digits_of s)))

normalize-Accepts :
    (s m : String) → normalize_phone_number s ≡ ok m → (m ≡ plus (digits_of s)) × Accepts s
unfolding normalize_phone_number
normalize-Accepts s m h = ground arith

normalize_accepted : (s : String) → Accepts s → normalize_phone_number s ≡ ok (plus (digits_of s))
unfolding normalize_phone_number
normalize_accepted s h = ground arith

has_plus-plus : (s : String) → has_plus (plus s) ≡ true
unfolding has_plus
has_plus-plus s = refl

normalized-IsE164 : (s m : String) → normalize_phone_number s ≡ ok m → IsE164 m
normalized-IsE164 s m h = go (normalize-Accepts s m h)
  where
    go : (m ≡ plus (digits_of s)) × Accepts s → IsE164 m
    go (spelled, (long, short, _)) = record {
      digits = digits_of s;
      spelled = spelled;
      only_digits = digits_of_idem s;
      long_enough = long;
      short_enough = short;
    }

normalize_again : (m : String) → IsE164 m → normalize_phone_number m ≡ ok m
normalize_again m e = rw e.spelled (
    normalize_accepted (plus e.digits)
      (rw same e.long_enough, rw same e.short_enough, inl (has_plus-plus e.digits))
    ∙ ap (λ d. ok (plus d)) same)
  where
    same : digits_of (plus e.digits) ≡ e.digits
    same =
        ap (λ d. digits_of (plus d)) (sym e.only_digits) ∙ digits_of-plus e.digits ∙ e.only_digits

-- A number is accepted exactly when it has seven to fifteen digits and starts with a plus or has
-- at least ten; the answer is a plus and its digits, in E.164 form, and is accepted as it is.
pub normalize_phone_number_lem :
    (s m : String)
    → ((normalize_phone_number s ≡ ok m) ↔ ((m ≡ plus (digits_of s)) × Accepts s))
      × (normalize_phone_number s ≡ ok m → IsE164 m × (normalize_phone_number m ≡ ok m))
normalize_phone_number_lem s m = (
  (normalize-Accepts s m, λ h. normalize_accepted s h.1 ∙ ap ok (sym h.0)),
  λ h. let e = normalized-IsE164 s m h in (e, normalize_again m e),
)
