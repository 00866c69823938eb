-- ===== src/Translation/Flags.antt =====
-- Which language a flag stands for.
use signal_bot_tee.Common.{
  String, str_eq, Option, none, some, if◌then◌else◌, ◌≡◌, refl, ap, sym, ◌∙◌,
}
use signal_bot_tee.Translation.Languages.{
  Lang, eng, spa, fra, deu, ita, por, rus, cmn, jpn, kor, ara, hin, tur, pol, nld, swe, dan, fin,
  nob, ukr, ces, ron, ell, hun, heb, tha, vie, ind, ben, other, lang_to_iso, lang_to_flag,
}

-- The language that a flag is shown for
lang_of_flag : String → Option Lang
lang_of_flag flag =
    if str_eq flag "🇬🇧"
    then some eng
    else if str_eq flag "🇪🇸"
    then some spa
    else if str_eq flag "🇫🇷"
    then some fra
    else if str_eq flag "🇩🇪"
    then some deu
    else if str_eq flag "🇮🇹"
    then some ita
    else if str_eq flag "🇧🇷"
    then some por
    else if str_eq flag "🇷🇺"
    then some rus
    else if str_eq flag "🇨🇳"
    then some cmn
    else if str_eq flag "🇯🇵"
    then some jpn
    else if str_eq flag "🇰🇷"
    then some kor
    else if str_eq flag "🇸🇦"
    then some ara
    else if str_eq flag "🇮🇳"
    then some hin
    else if str_eq flag "🇹🇷"
    then some tur
    else if str_eq flag "🇵🇱"
    then some pol
    else if str_eq flag "🇳🇱"
    then some nld
    else if str_eq flag "🇸🇪"
    then some swe
    else if str_eq flag "🇩🇰"
    then some dan
    else if str_eq flag "🇫🇮"
    then some fin
    else if str_eq flag "🇳🇴"
    then some nob
    else if str_eq flag "🇺🇦"
    then some ukr
    else if str_eq flag "🇨🇿"
    then some ces
    else if str_eq flag "🇷🇴"
    then some ron
    else if str_eq flag "🇬🇷"
    then some ell
    else if str_eq flag "🇭🇺"
    then some hun
    else if str_eq flag "🇮🇱"
    then some heb
    else if str_eq flag "🇹🇭"
    then some tha
    else if str_eq flag "🇻🇳"
    then some vie
    else if str_eq flag "🇮🇩"
    then some ind
    else if str_eq flag "🇧🇩"
    then some ben
    else none

some_injective : {A : Type 0} {x y : A} → some x ≡ some y → x ≡ y
some_injective h = cc

lang_of_flag_lem :
    (l : Lang) {iso : String} → lang_to_iso l ≡ some iso → lang_of_flag (lang_to_flag iso) ≡ some l
unfolding lang_of_flag lang_to_iso lang_to_flag
lang_of_flag_lem eng h = rw (← some_injective h) refl
lang_of_flag_lem spa h = rw (← some_injective h) refl
lang_of_flag_lem fra h = rw (← some_injective h) refl
lang_of_flag_lem deu h = rw (← some_injective h) refl
lang_of_flag_lem ita h = rw (← some_injective h) refl
lang_of_flag_lem por h = rw (← some_injective h) refl
lang_of_flag_lem rus h = rw (← some_injective h) refl
lang_of_flag_lem cmn h = rw (← some_injective h) refl
lang_of_flag_lem jpn h = rw (← some_injective h) refl
lang_of_flag_lem kor h = rw (← some_injective h) refl
lang_of_flag_lem ara h = rw (← some_injective h) refl
lang_of_flag_lem hin h = rw (← some_injective h) refl
lang_of_flag_lem tur h = rw (← some_injective h) refl
lang_of_flag_lem pol h = rw (← some_injective h) refl
lang_of_flag_lem nld h = rw (← some_injective h) refl
lang_of_flag_lem swe h = rw (← some_injective h) refl
lang_of_flag_lem dan h = rw (← some_injective h) refl
lang_of_flag_lem fin h = rw (← some_injective h) refl
lang_of_flag_lem nob h = rw (← some_injective h) refl
lang_of_flag_lem ukr h = rw (← some_injective h) refl
lang_of_flag_lem ces h = rw (← some_injective h) refl
lang_of_flag_lem ron h = rw (← some_injective h) refl
lang_of_flag_lem ell h = rw (← some_injective h) refl
lang_of_flag_lem hun h = rw (← some_injective h) refl
lang_of_flag_lem heb h = rw (← some_injective h) refl
lang_of_flag_lem tha h = rw (← some_injective h) refl
lang_of_flag_lem vie h = rw (← some_injective h) refl
lang_of_flag_lem ind h = rw (← some_injective h) refl
lang_of_flag_lem ben h = rw (← some_injective h) refl
lang_of_flag_lem (other n) h = absurd (cc)

-- Two languages that have a code and are shown with the same flag are the same language.
pub lang_to_flag-tells :
    (l k : Lang) {c d : String}
    → lang_to_iso l ≡ some c
    → lang_to_iso k ≡ some d
    → lang_to_flag c ≡ lang_to_flag d
    → l ≡ k
lang_to_flag-tells l k h j same =
    some_injective (sym (lang_of_flag_lem l h) ∙ ap lang_of_flag same ∙ lang_of_flag_lem k j)
