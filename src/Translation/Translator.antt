-- ===== src/Translation/Translator.antt =====
-- crates/translation/src/translator.rs and provider/libretranslate.rs: whether a message is translated,
-- and into what. `W` is the state of the network and the clock, `F` is `f64`.
use signal_bot_tee.Common.{
  ℕ, String, text_append, str_eq, ◌==◌, ltb, Bool, not, Option, none, some, Result, ok, err,
  if◌then◌else◌, unwrap_or,
}
use signal_bot_tee.Common.Http.{HttpResponse, is_success}
use signal_bot_tee.Common.Text.{byte_length}
use signal_bot_tee.Translation.Languages.{Lang, detect_language, lang_to_flag}
use signal_bot_tee.Translation.Truncate.{text_to_translate}
use signal_bot_tee.Translation.RateLimiter.{Float, TokenBucket, try_acquire}

pub data TranslationError : Type 0 where
  rate_limited http : TranslationError
  api_error : String → TranslationError

pub record TranslatorConfig (F : Type 0) : Type 0 where
  pub min_message_length : ℕ
  pub max_message_length : ℕ
  pub confidence_threshold : F
  pub rate_limit_per_minute : ℕ

pub record TranslationResult : Type 0 where
  pub translated_text : String
  pub source_lang : String
  pub target_lang : String
  pub flag_emoji : String

-- What a LibreTranslate server is asked: text, source and target.
pub record LibreTranslate (W : Type 0) : Type 0 where
  pub base_url : String
  pub post : String → String → String → String → W → Option HttpResponse × W
  pub parse : String → Option String

abbrev pub parsed : (String → Option String) → Option String → Result TranslationError String
parsed parse none = err http
parsed parse (some body) = elim (parse body) [ none ↦ err http | some text ↦ ok text ]

abbrev pub translation_of :
    (String → Option String) → Option HttpResponse → Result TranslationError String
translation_of parse none = err http
translation_of parse (some r) =
    if r.status == 429
    then err rate_limited
    else if r.status == 403
    then err (api_error "LibreTranslate: forbidden (check API key)")
    else if not (is_success r)
    then err (api_error (unwrap_or r.body ""))
    else parsed parse r.body

unfoldable pub translate :
    {W : Type 0}
    → LibreTranslate W
    → String
    → String
    → String
    → W
    → Result TranslationError String × W
unfolding is_success
translate p text from to w =
    let (reply, w') = p.post (text_append p.base_url "/translate") text from to w in
    (translation_of p.parse reply, w')

-- The translator, with the crate whatlang, the operations of `f64`, the clock and the provider
pub record Translator (W F : Type 0) : Type 0 where
  pub config : TranslatorConfig F
  pub wl_detect : String → Option (Lang × F)
  pub is_less : F → F → Bool
  pub float : Float F
  pub now : W → ℕ
  pub provider : String → String → String → W → Result TranslationError String × W

-- What a translation changes: the bucket behind its lock, and the world
pub record Translating (W F : Type 0) : Type 0 where
  pub rate_limiter : TokenBucket F
  pub world : W

-- The language that a text is translated into, if its own is one of the two
unfoldable pub target_of : String → String → String → Option String
target_of code lang_a lang_b =
    if str_eq code lang_a then some lang_b else if str_eq code lang_b then some lang_a else none

module _ {W F : Type 0} (t : Translator W F) where
  abbrev pub result_of :
      String
      → String
      → Result TranslationError String
      → Result TranslationError (Option TranslationResult)
  result_of code target (err e) = err e
  result_of code target (ok translated) = ok (
      some (record {
        translated_text = translated;
        source_lang = code;
        target_lang = target;
        flag_emoji = lang_to_flag target;
      }))

  -- From the rate limit on
  unfoldable pub translate_to :
      String
      → String
      → String
      → Translating W F
      → Result TranslationError (Option TranslationResult) × Translating W F
  unfolding try_acquire text_to_translate
  translate_to text code target s =
      let (acquired, bucket) = try_acquire t.float (t.now s.world) s.rate_limiter in
      if acquired
      then (let (reply, w) =
            t.provider (text_to_translate t.config.max_message_length text) code target s.world in
          (result_of code target reply, record { rate_limiter = bucket; world = w }))
      else (ok none, record s { rate_limiter = bucket })

  -- The language that is found with enough confidence, in a text that is not too short
  unfoldable pub confident_language : String → Option String
  unfolding detect_language
  confident_language text =
      if ltb (byte_length text) t.config.min_message_length
      then none
      else (elim (detect_language t.wl_detect text) [
        | none ↦ none
        | some d ↦
            if t.is_less d.confidence t.config.confidence_threshold then none else some d.iso_code
      ])

  unfoldable pub translate_if_needed :
      String
      → String
      → String
      → Translating W F
      → Result TranslationError (Option TranslationResult) × Translating W F
  unfolding translate_to confident_language target_of
  translate_if_needed text lang_a lang_b s = elim (confident_language text) [
    | none ↦ (ok none, s)
    | some code ↦ elim (target_of code lang_a lang_b) [
      | none ↦ (ok none, s)
      | some target ↦ translate_to text code target s
    ]
  ]
