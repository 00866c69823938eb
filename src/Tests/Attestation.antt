-- ===== src/Tests/Attestation.antt =====
-- The verify command over an agent that quotes whatever it is asked for.
use Prim.Native.Char.{code}
use text.Mathlib.TextEquality.{Char-path}
use signal_bot_tee.Common.{ℕ, zero, suc, ap, String, ◌≡◌, refl, true, none, some, [], ◌∷◌, arith}
use signal_bot_tee.Common.Http.{success_status}
use signal_bot_tee.Platform.{Bytes}
use signal_bot_tee.Attestation.Agent.{Agent, request, get_app_info, is_in_tee, get_quote}
use signal_bot_tee.Attestation.Verify.{VerifyHandler, generate_attestation, parse_challenge}
use signal_bot_tee.Attestation.Binding.{IsAttested, generate_attestation-IsAttested}
use signal_bot_tee.Attestation.Freshness.{IsCoding}

-- Bytes in unary, as letters
abbrev unary : ℕ → String → String
unary zero s = String.◌∷◌ "b" s
unary (suc n) s = String.◌∷◌ "a" (unary n s)

abbrev letters : Bytes → String
letters [] = ""
letters (x ∷ xs) = unary x (letters xs)

abbrev first_code : String → ℕ
first_code String.[] = 0
first_code (String.◌∷◌ c s) = code c

unary-tells : (m n : ℕ) (s t : String) → unary m s ≡ unary n t → (m ≡ n) × (s ≡ t)
unary-tells zero zero s t e = (refl, cc)
unary-tells zero (suc n) s t e = absurd (omega (arith, ap first_code e))
unary-tells (suc m) zero s t e = absurd (omega (arith, ap first_code e))
unary-tells (suc m) (suc n) s t e =
    let (same, rest) = unary-tells m n s t (cc) in (ap (λ k. suc k) same, rest)

letters-tell : (xs ys : Bytes) → letters xs ≡ letters ys → xs ≡ ys
letters-tell [] [] e = refl
letters-tell [] (zero ∷ ys) e = absurd (omega (arith, ap first_code e))
letters-tell [] (suc y ∷ ys) e = absurd (omega (arith, ap first_code e))
letters-tell (zero ∷ xs) [] e = absurd (omega (arith, ap first_code e))
letters-tell (suc x ∷ xs) [] e = absurd (omega (arith, ap first_code e))
letters-tell (x ∷ xs) (y ∷ ys) e =
    let (same, rest) = unary-tells x y (letters xs) (letters ys) e in
    let tails = letters-tell xs ys rest in cc

-- The code points of a text
abbrev codes : String → Bytes
codes String.[] = []
codes (String.◌∷◌ c s) = code c ∷ codes s

codes-tell : (s t : String) → codes s ≡ codes t → s ≡ t
codes-tell String.[] String.[] e = refl
codes-tell String.[] (String.◌∷◌ d t) e = absurd (cc)
codes-tell (String.◌∷◌ c s) String.[] e = absurd (cc)
codes-tell (String.◌∷◌ c s) (String.◌∷◌ d t) e =
    let tails = codes-tell s t (cc) in let heads = Char-path c d (cc) in cc

abbrev agent : Agent ℕ
agent = record {
  socket_exists = λ w. true;
  send = λ method path body w. (some (200, some (1 ∷ [])), suc w);
  parse_info = λ b. some (record { compose_hash = some "c0"; app_id = none });
  parse_quote = λ b. some "quote";
  parse_key = λ b. none;
  parse_cert = λ b. none;
  derive_key_request = λ path subject. none;
  hex_encode = letters;
  hex_decode = λ s. none;
  base64_decode = λ s. none;
}

abbrev handler : VerifyHandler ℕ
handler = record { dstack = agent; operator_addresses = none; as_bytes = codes; sha256 = λ b. b }

challenge_of_text : parse_challenge " !verify  my nonce " ≡ some "my nonce"
unfolding parse_challenge
challenge_of_text = refl

generate_attestation-IsAttested_example :
    IsAttested handler (some "n") (generate_attestation handler (some "n") 0).0 "quote"
unfolding generate_attestation is_in_tee get_app_info get_quote request success_status
generate_attestation-IsAttested_example = generate_attestation-IsAttested handler (some "n") 0 refl

coding : IsCoding handler
coding = record { hex_tells = letters-tell; bytes_tell = codes-tell }
