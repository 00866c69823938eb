-- ===== src/Translation/Languages.antt =====
-- crates/translation/src/detect.rs: the languages that the crate whatlang may find, their ISO 639-1
-- codes and their flags.
use signal_bot_tee.Common.{String, str_eq, Option, none, some, if◌then◌else◌, ℕ}

-- `whatlang::Lang`: the languages that the source names, and the number of any other
pub data Lang : Type 0 where
  eng spa fra deu ita por rus cmn jpn kor ara hin tur pol nld swe dan fin nob ukr ces ron ell hun
        heb tha vie ind ben :
      Lang
  other : ℕ → Lang

unfoldable pub lang_to_iso : Lang → Option String
lang_to_iso eng = some "en"
lang_to_iso spa = some "es"
lang_to_iso fra = some "fr"
lang_to_iso deu = some "de"
lang_to_iso ita = some "it"
lang_to_iso por = some "pt"
lang_to_iso rus = some "ru"
lang_to_iso cmn = some "zh"
lang_to_iso jpn = some "ja"
lang_to_iso kor = some "ko"
lang_to_iso ara = some "ar"
lang_to_iso hin = some "hi"
lang_to_iso tur = some "tr"
lang_to_iso pol = some "pl"
lang_to_iso nld = some "nl"
lang_to_iso swe = some "sv"
lang_to_iso dan = some "da"
lang_to_iso fin = some "fi"
lang_to_iso nob = some "no"
lang_to_iso ukr = some "uk"
lang_to_iso ces = some "cs"
lang_to_iso ron = some "ro"
lang_to_iso ell = some "el"
lang_to_iso hun = some "hu"
lang_to_iso heb = some "he"
lang_to_iso tha = some "th"
lang_to_iso vie = some "vi"
lang_to_iso ind = some "id"
lang_to_iso ben = some "bn"
lang_to_iso (other n) = none

-- The flag of a code is two regional indicators, and a globe for an unknown one.
unfoldable pub lang_to_flag : String → String
lang_to_flag code =
    if str_eq code "en"
    then "🇬🇧"
    else if str_eq code "es"
    then "🇪🇸"
    else if str_eq code "fr"
    then "🇫🇷"
    else if str_eq code "de"
    then "🇩🇪"
    else if str_eq code "it"
    then "🇮🇹"
    else if str_eq code "pt"
    then "🇧🇷"
    else if str_eq code "ru"
    then "🇷🇺"
    else if str_eq code "zh"
    then "🇨🇳"
    else if str_eq code "ja"
    then "🇯🇵"
    else if str_eq code "ko"
    then "🇰🇷"
    else if str_eq code "ar"
    then "🇸🇦"
    else if str_eq code "hi"
    then "🇮🇳"
    else if str_eq code "tr"
    then "🇹🇷"
    else if str_eq code "pl"
    then "🇵🇱"
    else if str_eq code "nl"
    then "🇳🇱"
    else if str_eq code "sv"
    then "🇸🇪"
    else if str_eq code "da"
    then "🇩🇰"
    else if str_eq code "fi"
    then "🇫🇮"
    else if str_eq code "no"
    then "🇳🇴"
    else if str_eq code "uk"
    then "🇺🇦"
    else if str_eq code "cs"
    then "🇨🇿"
    else if str_eq code "ro"
    then "🇷🇴"
    else if str_eq code "el"
    then "🇬🇷"
    else if str_eq code "hu"
    then "🇭🇺"
    else if str_eq code "he"
    then "🇮🇱"
    else if str_eq code "th"
    then "🇹🇭"
    else if str_eq code "vi"
    then "🇻🇳"
    else if str_eq code "id"
    then "🇮🇩"
    else if str_eq code "bn"
    then "🇧🇩"
    else "🌐"

-- What the crate finds: a language, and how sure it is of it
pub record DetectedLanguage (F : Type 0) : Type 0 where
  pub iso_code : String
  pub confidence : F

-- `wl_detect` is the crate's `detect`.
unfoldable pub detect_language :
    {F : Type 0} → (String → Option (Lang × F)) → String → Option (DetectedLanguage F)
unfolding lang_to_iso
detect_language wl_detect text = elim (wl_detect text) [
  | none ↦ none
  | some (lang, confidence) ↦ elim (lang_to_iso lang) [
    | none ↦ none
    | some iso ↦ some (record { iso_code = iso; confidence = confidence })
  ]
]
