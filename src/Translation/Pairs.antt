-- ===== src/Translation/Pairs.antt =====
-- What a translation of the translator is.
use signal_bot_tee.Common.{
  String, str_eq, ◌≡◌, ap, sym, ◌∙◌, true, some, Result, ok, err, arith, inl, inr, ◌⊎◌, Bool-cases,
  Option-cases, eq_iff,
}
use signal_bot_tee.Translation.Languages.{lang_to_flag}
use signal_bot_tee.Translation.Truncate.{text_to_translate}
use signal_bot_tee.Translation.RateLimiter.{try_acquire}
use signal_bot_tee.Translation.Translator.{
  TranslationError, TranslationResult, Translator, Translating, target_of, result_of, translate_to,
  confident_language, translate_if_needed,
}

module _ {W F : Type 0} (t : Translator W F) where
  -- A translation is from one language of the pair into the other, of what the provider answered to
  -- one request for the text, with a token taken from the bucket.
  pub record IsTranslation (text lang_a lang_b : String) (s : Translating W F)
      (r : TranslationResult) : Type 0 where
    pub detected : confident_language t text ≡ some r.source_lang
    pub of_pair :
        ((r.source_lang ≡ lang_a) × (r.target_lang ≡ lang_b))
        ⊎ ((r.source_lang ≡ lang_b) × (r.target_lang ≡ lang_a))
    pub paid : (try_acquire t.float (t.now s.world) s.rate_limiter).0 ≡ true
    pub answered :
        (t.provider
          (text_to_translate t.config.max_message_length text)
          r.source_lang
          r.target_lang
          s.world).0
        ≡ ok r.translated_text
    pub flagged : r.flag_emoji ≡ lang_to_flag r.target_lang

  target_of-pair :
      (code a b : String) {target : String}
      → target_of code a b ≡ some target
      → ((code ≡ a) × (target ≡ b)) ⊎ ((code ≡ b) × (target ≡ a))
  unfolding target_of
  target_of-pair code a b h = elim (Bool-cases (str_eq code a)) [
    | inl first ↦ inl ((eq_iff code a).0 first, ground (arith, h, first))
    | inr other ↦ elim (Bool-cases (str_eq code b)) [
      | inl second ↦ inr ((eq_iff code b).0 second, ground (arith, h, other, second))
      | inr none_of ↦ absurd (ground (arith, h, other, none_of))
    ]
  ]

  result_of-some :
      (code target : String) (reply : Result TranslationError String) {r : TranslationResult}
      → result_of t code target reply ≡ ok (some r)
      → (reply ≡ ok r.translated_text)
        × (r.source_lang ≡ code)
        × (r.target_lang ≡ target)
        × (r.flag_emoji ≡ lang_to_flag target)
  result_of-some code target (err e) h = absurd (cc)
  result_of-some code target (ok x) h = (cc, cc, cc, cc)

  translate_to-some :
      (text code target : String) (s : Translating W F) {r : TranslationResult}
      → (translate_to t text code target s).0 ≡ ok (some r)
      → ((try_acquire t.float (t.now s.world) s.rate_limiter).0 ≡ true)
        × (result_of t code target
              (t.provider
                (text_to_translate t.config.max_message_length text)
                code
                target
                s.world).0
            ≡ ok (some r))
  unfolding translate_to
  translate_to-some text code target s h =
      elim (Bool-cases (try_acquire t.float (t.now s.world) s.rate_limiter).0) [
        | inl got ↦ (got, ground (arith, h, got))
        | inr refused ↦ absurd (ground (arith, h, refused))
      ]

  IsTranslation-to :
      (text a b code target : String) (s : Translating W F) {r : TranslationResult}
      → confident_language t text ≡ some code
      → target_of code a b ≡ some target
      → (translate_to t text code target s).0 ≡ ok (some r)
      → IsTranslation text a b s r
  IsTranslation-to text a b code target s found pair h =
      let (paid, result) = translate_to-some text code target s h in
      let (answered, source, aim, flag) = result_of-some code target _ result in
      record {
        detected = found ∙ ap (λ c. some c) (sym source);
        of_pair = rw (source, aim) (target_of-pair code a b pair);
        paid = paid;
        answered = rw (source, aim) answered;
        flagged = rw aim flag;
      }

  -- A translation that is answered is of the language that was found with enough confidence in a
  -- text that is not too short, which is one of the pair, into the other; it is the provider's
  -- answer for the text as it is cut, a token was paid for it, and its flag is that of the target.
  pub translate_if_needed-IsTranslation :
      (text lang_a lang_b : String) (s : Translating W F) {r : TranslationResult}
      → (translate_if_needed t text lang_a lang_b s).0 ≡ ok (some r)
      → IsTranslation text lang_a lang_b s r
  unfolding translate_if_needed
  translate_if_needed-IsTranslation text a b s h = elim (Option-cases (confident_language t text)) [
    | inl unsure ↦ absurd (ground (arith, h, unsure))
    | inr (code, found) ↦ elim (Option-cases (target_of code a b)) [
      | inl foreign ↦ absurd (ground (arith, h, found, foreign))
      | inr (target, pair) ↦
          IsTranslation-to text a b code target s found pair (ground (arith, h, found, pair))
    ]
  ]
