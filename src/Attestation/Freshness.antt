-- ===== src/Attestation/Freshness.antt =====
-- Whether a quote for one challenge can stand for another: the report data that the verify command
-- asks the agent to sign.
use text.Mathlib.TextLemmas.{append_cancel_left}
use signal_bot_tee.Common.{
  ℕ, zero, suc, ◌-◌, ◌≤◌, ◌<◌, String, ◌≡◌, refl, ap, sym, ◌∙◌, some, [], ◌∷◌, ◌++◌, length, take,
  arith,
}
use signal_bot_tee.Platform.{Bytes}
use signal_bot_tee.Attestation.Agent.{quote_path, pad_report, zeros}
use signal_bot_tee.Attestation.Verify.{VerifyHandler, report_data}

-- No byte is NUL.
abbrev pub HasNoNul : Bytes → Type 0
HasNoNul [] = Unit {0}
HasNoNul (x ∷ xs) = (0 < x) × HasNoNul xs

-- Hexadecimal digits, and the bytes of a text, tell what they are made from.
pub record IsCoding {W : Type 0} (h : VerifyHandler W) : Type 0 where
  pub hex_tells : (x y : Bytes) → h.dstack.hex_encode x ≡ h.dstack.hex_encode y → x ≡ y
  pub bytes_tell : (s t : String) → h.as_bytes s ≡ h.as_bytes t → s ≡ t

take-eq_self : (n : ℕ) (xs : Bytes) → length xs ≤ n → take n xs ≡ xs
take-eq_self n [] h = take-nil n
  where
    take-nil : (n : ℕ) → take {A = ℕ} n [] ≡ []
    take-nil zero = refl
    take-nil (suc n) = refl
take-eq_self zero (x ∷ xs) h = absurd (omega arith)
take-eq_self (suc n) (x ∷ xs) h = ap (λ ys. x ∷ ys) (take-eq_self n xs (omega arith))

-- What stands before the padding is what has been padded.
zeros-separate :
    (m n : ℕ) (xs ys : Bytes) → HasNoNul xs → HasNoNul ys → xs ++ zeros m ≡ ys ++ zeros n → xs ≡ ys
zeros-separate m n [] [] p q e = refl
zeros-separate zero n [] (y ∷ ys) p q e = absurd (cc)
zeros-separate (suc m) n [] (y ∷ ys) p q e = absurd (ground (arith, e, q))
zeros-separate m zero (x ∷ xs) [] p q e = absurd (cc)
zeros-separate m (suc n) (x ∷ xs) [] p q e = absurd (ground (arith, e, p))
zeros-separate m n (x ∷ xs) (y ∷ ys) p q e =
    let tails : xs ++ zeros m ≡ ys ++ zeros n = cc in
    let same : xs ≡ ys = zeros-separate m n xs ys p.1 q.1 tails in let heads : x ≡ y = cc in cc

module _ {W : Type 0} (h : VerifyHandler W) where
  pad_report-tells :
      (xs ys : Bytes)
      → HasNoNul xs
      → HasNoNul ys
      → length xs ≤ 64
      → length ys ≤ 64
      → pad_report xs ≡ pad_report ys
      → xs ≡ ys
  unfolding pad_report
  pad_report-tells xs ys p q a b e =
      let whole_xs : take 64 xs ≡ xs = take-eq_self 64 xs a in
      let whole_ys : take 64 ys ≡ ys = take-eq_self 64 ys b in
      zeros-separate (64 - length xs) (64 - length ys) xs ys p q (
        ap (λ zs. zs ++ zeros (64 - length xs)) (sym whole_xs)
        ∙ e
        ∙ ap (λ zs. zs ++ zeros (64 - length ys)) whole_ys)

  report_data-short :
      (c : String) → length (h.as_bytes c) ≤ 64 → report_data h (some c) ≡ h.as_bytes c
  unfolding report_data
  report_data-short c short = ground arith

  -- Two challenges of at most 64 bytes, none of them NUL, for which the agent is asked for the
  -- same quote, are the same challenge.
  pub quote_path-tells :
      IsCoding h
      → (c d : String) → length (h.as_bytes c) ≤ 64
      → length (h.as_bytes d) ≤ 64
      → HasNoNul (h.as_bytes c)
      → HasNoNul (h.as_bytes d)
      → quote_path h.dstack (report_data h (some c)) ≡ quote_path h.dstack (report_data h (some d))
      → c ≡ d
  quote_path-tells coding c d short_c short_d clean_c clean_d same = coding.bytes_tell c d (
      pad_report-tells (h.as_bytes c) (h.as_bytes d) clean_c clean_d short_c short_d (
        coding.hex_tells _ _ (
          rw (← report_data-short c short_c, ← report_data-short d short_d)
            (append_cancel_left "/GetQuote?report_data=" _ _ same))))
