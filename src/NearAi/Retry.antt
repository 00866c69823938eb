-- ===== src/NearAi/Retry.antt =====
-- crates/near-ai-client/src/client.rs: `chat_with_retry`, and what its loop does.
use native.Mathlib.Nat.{pow-suc}
use signal_bot_tee.Common.{
  ℕ, zero, suc, ◌*◌, ◌^◌, min, String, ◌≡◌, refl, Bool, true, false, Option, none, some, List,
  Result, ok, err, unwrap_or, arith, inl, inr, Bool-cases,
}
use signal_bot_tee.Chat.Types.{Message}
use signal_bot_tee.NearAi.Client.{
  NearAiError, api, unauthorized, empty_response, NearAiClient, chat,
}

abbrev pub default_max_retries : ℕ
default_max_retries = 3

abbrev pub default_initial_backoff_ms : ℕ
default_initial_backoff_ms = 100

abbrev pub default_max_backoff_ms : ℕ
default_max_backoff_ms = 5000

-- The errors that end the loop at once
abbrev pub is_final : NearAiError → Bool
is_final unauthorized = true
is_final empty_response = true
is_final _ = false

module _ {W F D : Type 0} (c : NearAiClient W F D) (messages : List Message)
    (temperature : Option F) (max_tokens : Option ℕ) where
  abbrev pub request : W → Result NearAiError String × W
  request = chat c messages temperature max_tokens

  -- `if attempt > 0 { ... }`: the wait, and the next `backoff_ms`
  abbrev pub sleep_before : ℕ → ℕ → W → W
  sleep_before zero backoff w = w
  sleep_before (suc attempt) backoff w = c.sleep backoff w

  abbrev pub next_backoff : ℕ → ℕ → ℕ
  next_backoff zero backoff = backoff
  next_backoff (suc attempt) backoff = min (backoff * 2) default_max_backoff_ms

  -- The rounds that are left, the attempt, `backoff_ms` and `last_error`
  unfoldable pub retry_loop : ℕ → ℕ → ℕ → Option NearAiError → W → Result NearAiError String × W
  retry_loop zero attempt backoff last w = (err (unwrap_or last (api 0 "Max retries exceeded")), w)
  retry_loop (suc rounds) attempt backoff last w =
      let (reply, w') = request (sleep_before attempt backoff w) in
      elim reply [
        | ok a ↦ (ok a, w')
        | err e ↦ elim (is_final e) [
          | true ↦ (err e, w')
          | false ↦ retry_loop rounds (suc attempt) (next_backoff attempt backoff) (some e) w'
        ]
      ]

  unfoldable pub chat_with_retry : Option ℕ → W → Result NearAiError String × W
  unfolding retry_loop
  chat_with_retry max_retries w =
      retry_loop (suc (unwrap_or max_retries default_max_retries)) 0 default_initial_backoff_ms none
        w

  -- The wait before retry `i + 1`, in milliseconds
  abbrev pub wait : ℕ → ℕ
  wait i = min (default_initial_backoff_ms * 2 ^ i) default_max_backoff_ms

  -- What may happen from a request on, `i` retries having been made and `n` being left.
  pub data Requests : ℕ → ℕ → W → Result NearAiError String × W → Type 0 where
    answered :
        {i n : ℕ} {w : W} {a : String} → (request w).0 ≡ ok a → Requests i n w (ok a, (request w).1)
    stopped :
        {i n : ℕ} {w : W} {e : NearAiError}
        → (request w).0 ≡ err e
        → is_final e ≡ true
        → Requests i n w (err e, (request w).1)
    exhausted :
        {i : ℕ} {w : W} {e : NearAiError}
        → (request w).0 ≡ err e
        → is_final e ≡ false
        → Requests i zero w (err e, (request w).1)
    retried :
        {i n : ℕ} {w : W} {o : Result NearAiError String × W} {e : NearAiError}
        → (request w).0 ≡ err e
        → is_final e ≡ false
        → Requests (suc i) n (c.sleep (wait i) (request w).1) o
        → Requests i (suc n) w o

  next_wait : (i : ℕ) → min (wait i * 2) default_max_backoff_ms ≡ wait (suc i)
  next_wait i = omega (arith, pow-suc 2 i)

  -- One round: what is left to show is that the rounds after it go on likewise.
  round-Requests :
      (i n : ℕ) (w : W) (next : NearAiError → W → Result NearAiError String × W)
      → ((e : NearAiError)
          → (request w).0 ≡ err e
          → is_final e ≡ false
          → Requests i n w (next e (request w).1))
      → (reply : Result NearAiError String) → (request w).0 ≡ reply
      → Requests i n w (elim reply [
        | ok a ↦ (ok a, (request w).1)
        | err e ↦ elim (is_final e) [ true ↦ (err e, (request w).1) | false ↦ next e (request w).1 ]
      ])
  round-Requests i n w next goes_on (ok a) replied = answered replied
  round-Requests i n w next goes_on (err e) failed = elim (Bool-cases (is_final e)) [
    | inl final ↦ rw final (stopped failed final)
    | inr transient ↦ rw transient (goes_on e failed transient)
  ]

  loop-Requests :
      (n i : ℕ) (last : Option NearAiError) (w : W)
      → Requests (suc i) n (c.sleep (wait i) w) (retry_loop (suc n) (suc i) (wait i) last w)
  unfolding retry_loop
  loop-Requests zero i last w =
      round-Requests (suc i) zero (c.sleep (wait i) w) (λ e w'. (err e, w'))
        (λ e failed transient. exhausted failed transient) _ refl
  loop-Requests (suc n) i last w =
      round-Requests (suc i) (suc n) (c.sleep (wait i) w)
        (λ e w'. retry_loop (suc n) (suc (suc i)) (next_backoff (suc i) (wait i)) (some e) w')
        (λ e failed transient.
          retried failed transient (rw (next_wait i) (loop-Requests n (suc i) (some e) _)))
        _ refl

  first-Requests :
      (n : ℕ) (w : W)
      → Requests zero n w (retry_loop (suc n) zero default_initial_backoff_ms none w)
  unfolding retry_loop
  first-Requests zero w =
      round-Requests zero zero w (λ e w'. (err e, w'))
        (λ e failed transient. exhausted failed transient) _ refl
  first-Requests (suc n) w =
      round-Requests zero (suc n) w
        (λ e w'. retry_loop (suc n) 1 default_initial_backoff_ms (some e) w')
        (λ e failed transient. retried failed transient (loop-Requests n zero (some e) _)) _ refl

  -- At most `max_retries` retries follow the first request, which are three by default. A reply, a
  -- failed authentication and an empty response end them; any other error is the answer only if no
  -- retry is left. Before retry `i + 1` the client waits for the smaller of 100 * 2^i and 5000
  -- milliseconds.
  pub chat_with_retry-Requests :
      (max_retries : Option ℕ) (w : W)
      → Requests 0 (unwrap_or max_retries default_max_retries) w (chat_with_retry max_retries w)
  unfolding chat_with_retry
  chat_with_retry-Requests max_retries w =
      first-Requests (unwrap_or max_retries default_max_retries) w
