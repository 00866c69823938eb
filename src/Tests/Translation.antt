-- ===== src/Tests/Translation.antt =====
-- A translator between English and Spanish that finds everything to be English, and marks what it
-- is given.
use signal_bot_tee.Common.{
  ℕ, suc, String, text_append, ◌≡◌, ◌≤◌, ◌*◌, ◌+◌, ◌-◌, ◌⊎◌, refl, ltb, leb, min, ◌/◌, some, ok,
  arith,
}
use signal_bot_tee.Translation.Languages.{eng, detect_language, lang_to_iso, lang_to_flag}
use signal_bot_tee.Translation.Truncate.{
  text_to_translate, safe_end, rfind_space, IsBeginning, text_to_translate-IsBeginning,
}
use signal_bot_tee.Translation.RateLimiter.{
  Float, IsFloat, burst, bucket_of, new_bucket, try_acquire, refill, burst_bounds,
}
use signal_bot_tee.Translation.Translator.{
  Translator, Translating, TranslationResult, translate_if_needed, translate_to, confident_language,
  target_of,
}

-- Whole numbers in place of `f64`, and whole seconds
abbrev counted : Float ℕ
counted = record {
  of_nat = λ n. n;
  as_secs = λ n. n / 1000000000;
  add = λ x y. x + y;
  sub = λ x y. x - y;
  mul = λ x y. x * y;
  div = λ x y. x / y;
  smaller = min;
  is_at_least = λ x y. leb y x;
}

abbrev marking : Translator ℕ ℕ
marking = record {
  config = record {
    min_message_length = 3;
    max_message_length = 8;
    confidence_threshold = 30;
    rate_limit_per_minute = 60;
  };
  wl_detect = λ text. some (eng, 90);
  is_less = ltb;
  float = counted;
  now = λ w. w;
  provider = λ text from to w. (ok (text_append to (text_append ":" text)), suc w);
}

abbrev fresh : Translating ℕ ℕ
fresh = record { rate_limiter = bucket_of counted 60 60 0; world = 5 }

abbrev answer : TranslationResult
answer = record {
  translated_text = "es:hello...";
  source_lang = "en";
  target_lang = "es";
  flag_emoji = "🇪🇸";
}

translated : (translate_if_needed marking "hello world" "en" "es" fresh).0 ≡ ok (some answer)
unfolding translate_if_needed translate_to confident_language target_of try_acquire refill
    text_to_translate detect_language lang_to_iso lang_to_flag safe_end rfind_space
translated = refl

-- A pair of one language is translated into itself.
into_itself :
    (translate_if_needed marking "hello" "en" "en" fresh).0
    ≡ ok (
        some (record {
          translated_text = "en:hello";
          source_lang = "en";
          target_lang = "en";
          flag_emoji = "🇬🇧";
        }))
unfolding translate_if_needed translate_to confident_language target_of try_acquire refill
    text_to_translate detect_language lang_to_iso lang_to_flag
into_itself = refl

-- The cut may be three bytes behind the limit.
behind_limit : text_to_translate 7 "hello 😀x" ≡ "hello..."
unfolding text_to_translate safe_end rfind_space
behind_limit = refl

text_to_translate-IsBeginning_example :
    ((11 ≤ 8) × (text_to_translate 8 "hello world" ≡ "hello world"))
    ⊎ ((9 ≤ 11)
        × (start : String) × (text_to_translate 8 "hello world" ≡ text_append start "...")
        × IsBeginning 8 "hello world" start)
text_to_translate-IsBeginning_example = text_to_translate-IsBeginning 8 "hello world"

counted-IsFloat : IsFloat counted
counted-IsFloat = record {
  is_below = λ x y. x ≤ y;
  same = λ t. omega arith;
  no_time = λ x t k below. omega (arith, below);
  no_time_exact = λ t k. omega arith;
  smaller_first = λ x y t below. omega (arith, below);
  smaller_second = λ x t. omega arith;
  smaller_exact = λ t k fits small. omega (arith, fits);
  below_one = λ x below. ground (arith, below);
  at_least_one = λ t small. refl;
  sub_one = λ x t small below. omega (arith, below);
  sub_one_exact = λ t small. omega arith;
}

burst_bounds_example :
    ((burst counted 9 5 (bucket_of counted 2 1 3)).0 ≤ 2)
    × ((burst counted 9 5 (new_bucket counted 2 9)).0 ≡ min 5 2)
burst_bounds_example = burst_bounds counted counted-IsFloat 2 5 9 3 1 (omega arith)

-- A new bucket of two a minute gives two of three calls a token.
two_of_three : (burst counted 9 3 (new_bucket counted 2 9)).0 ≡ 2
unfolding new_bucket try_acquire refill
two_of_three = refl
