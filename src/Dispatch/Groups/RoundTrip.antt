-- ===== src/Dispatch/Groups/RoundTrip.antt =====
-- That the configuration of a list of groups is read back as that list.
use Prim.Native.Char.{Char, code}
use signal_bot_tee.Common.Table
use signal_bot_tee.Common.{
  String, text_append, str_eq, ◌≡◌, refl, ap, ◌∙◌, arith, Bool, true, false, not, ◌&&◌, some, List,
  [], ◌∷◌, Bool-cases, inl, inr,
}
use text.Mathlib.TextEquality.{eq_iff}
use text.Mathlib.TextLemmas.{nil-append, cons-append}
use signal_bot_tee.Common.Table.{Table}
use signal_bot_tee.Common.Trim.{trim, trim_start, trim_end, push_front, is_whitespace}
use signal_bot_tee.Common.Split.{split, has_char, split-join, split_whole, has_char-append}
use signal_bot_tee.Dispatch.Groups.{
  Entry, entry_of, parse_entry, inserted, collected, parse_group_config,
}

unfoldable pub is_spaceless : String → Bool
unfolding is_whitespace
is_spaceless String.[] = true
is_spaceless (String.◌∷◌ c s) = not (is_whitespace (code c)) && is_spaceless s

push_front_keeps : (s t : String) → push_front false s t ≡ s
push_front_keeps s String.[] = refl
push_front_keeps s (String.◌∷◌ d t) = refl

trim_end_spaceless : (s : String) → is_spaceless s ≡ true → trim_end s ≡ s
unfolding is_spaceless trim_end
trim_end_spaceless String.[] h = refl
trim_end_spaceless (String.◌∷◌ c s) h =
    let first : is_whitespace (code c) ≡ false = ground (arith, h) in
    let rest : trim_end s ≡ s = trim_end_spaceless s (ground (arith, h)) in
    rw (first, rest) (push_front_keeps (String.◌∷◌ c s) s)

trim_start_stays :
    (c : Char) (s : String)
    → is_whitespace (code c) ≡ false
    → trim_start (String.◌∷◌ c s) ≡ String.◌∷◌ c s
unfolding trim_start
trim_start_stays c s h = rw (is_whitespace, h) refl

trim_spaceless : (s : String) → is_spaceless s ≡ true → trim s ≡ s
unfolding is_spaceless trim trim_start
trim_spaceless String.[] h = refl
trim_spaceless (String.◌∷◌ c s) h =
    let first : is_whitespace (code c) ≡ false = ground (arith, h) in
    ap trim_end (trim_start_stays c s first) ∙ trim_end_spaceless (String.◌∷◌ c s) h

spaceless-append :
    (s t : String) → is_spaceless (text_append s t) ≡ (is_spaceless s && is_spaceless t)
unfolding is_spaceless
spaceless-append String.[] t = ap is_spaceless (nil-append t)
spaceless-append (String.◌∷◌ c s) t = rw (cons-append c s t) (ground (arith, spaceless-append s t))

-- A name without a space, a comma or a colon
abbrev pub IsName : String → Type 0
IsName s = (is_spaceless s ≡ true) × (has_char 44 s ≡ false) × (has_char 58 s ≡ false)

abbrev pub print_entry : Entry → String
print_entry (group, (a, b)) = text_append group (String.◌∷◌ ":" (text_append a (String.◌∷◌ ":" b)))

-- The text of a configuration: the entries with commas between them
abbrev pub print_config : List Entry → String
print_config [] = ""
print_config (e ∷ []) = print_entry e
print_config (e ∷ (f ∷ es)) = text_append (print_entry e) (String.◌∷◌ "," (print_config (f ∷ es)))

abbrev pub AreNames : List Entry → Type 0
AreNames [] = Unit {0}
AreNames ((group, (a, b)) ∷ es) = IsName group × IsName a × IsName b × AreNames es

-- The map with the entries put in, one after the other
abbrev pub groups_of : List Entry → Table (String × String) → Table (String × String)
groups_of [] groups = groups
groups_of ((group, languages) ∷ es) groups = groups_of es (Table.put group languages groups)

parse-print_entry :
    (group a b : String)
    → IsName group
    → IsName a
    → IsName b
    → (parse_entry (print_entry (group, (a, b))) ≡ some (group, (a, b)))
      × (has_char 44 (print_entry (group, (a, b))) ≡ false)
unfolding parse_entry is_spaceless has_char
parse-print_entry group a b (g1, g2, g3) (a1, a2, a3) (b1, b2, b3) =
    let text = print_entry (group, (a, b)) in
    let spaceless : is_spaceless text ≡ true = ground (
      arith,
      spaceless-append group (String.◌∷◌ ":" (text_append a (String.◌∷◌ ":" b))),
      spaceless-append a (String.◌∷◌ ":" b),
    ) in
    let no_comma : has_char 44 text ≡ false = ground (
      arith,
      has_char-append 44 group (String.◌∷◌ ":" (text_append a (String.◌∷◌ ":" b))),
      has_char-append 44 a (String.◌∷◌ ":" b),
    ) in
    let parts : split 58 text ≡ group ∷ a ∷ b ∷ [] =
      rw
        (
          split-join 58 ":" group (text_append a (String.◌∷◌ ":" b)) refl g3,
          split-join 58 ":" a b refl a3,
          split_whole 58 b b3,
        )
        refl in
    let trimmed : split 58 (trim text) ≡ group ∷ a ∷ b ∷ [] =
      ap (split 58) (trim_spaceless text spaceless) ∙ parts in
    (
      ap entry_of trimmed
          ∙ rw (trim_spaceless group g1, trim_spaceless a a1, trim_spaceless b b1) refl,
      no_comma,
    )

collected-print_config :
    (e : Entry) (es : List Entry) (groups : Table (String × String))
    → AreNames (e ∷ es)
    → collected (split 44 (print_config (e ∷ es))) groups ≡ groups_of (e ∷ es) groups
unfolding collected
collected-print_config (group, (a, b)) [] groups (g, ha, hb, rest) =
    let (read, no_comma) = parse-print_entry group a b g ha hb in
    rw (split_whole 44 (print_entry (group, (a, b))) no_comma, read) refl
collected-print_config (group, (a, b)) (f ∷ es) groups (g, ha, hb, rest) =
    let (read, no_comma) = parse-print_entry group a b g ha hb in
    let cut =
      split-join 44 "," (print_entry (group, (a, b))) (print_config (f ∷ es)) refl no_comma in
    rw cut (
      ap (λ o. collected (split 44 (print_config (f ∷ es))) (inserted o groups)) read
      ∙ collected-print_config f es (Table.put group (a, b) groups) rest)

-- An empty configuration needs no case of its own.
parse_group_config_lem :
    (config : String) → parse_group_config config ≡ collected (split 44 config) []
unfolding parse_group_config
parse_group_config_lem config = elim (Bool-cases (str_eq config "")) [
  | inl same ↦ (let empty : config ≡ "" = ground (arith, same, eq_iff config "") in rw empty refl)
  | inr other ↦ rw other refl
]

-- The configuration of a list of groups, all of whose names have no space, comma or colon, is read
-- as the map of these groups, where a later entry of a group replaces an earlier one.
pub parse_group_config-print_config :
    (es : List Entry) → AreNames es → parse_group_config (print_config es) ≡ groups_of es []
unfolding parse_group_config
parse_group_config-print_config [] names = refl
parse_group_config-print_config (e ∷ es) names =
    parse_group_config_lem (print_config (e ∷ es)) ∙ collected-print_config e es [] names
