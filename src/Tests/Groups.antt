-- ===== src/Tests/Groups.antt =====
-- The configurations of the tests of the source.
use signal_bot_tee.Common.{◌≡◌, refl, some, none, [], ◌∷◌, List}
use signal_bot_tee.Common.Table
use signal_bot_tee.Dispatch.Groups.{Entry, parse_group_config}
use signal_bot_tee.Dispatch.Groups.RoundTrip.{
  parse_group_config-print_config, print_config, groups_of, is_spaceless,
}

with_spaces : parse_group_config " group1 : en : es " ≡ ("group1", ("en", "es")) ∷ []
unfolding parse_group_config Table.put
with_spaces = refl

invalid_skipped : parse_group_config "bad,group1:en:es,too:few" ≡ ("group1", ("en", "es")) ∷ []
unfolding parse_group_config Table.put
invalid_skipped = refl

abbrev two_groups : List Entry
two_groups = ("abc==", ("en", "es")) ∷ ("def", ("en", "fr")) ∷ []

parse_group_config-print_config_example :
    parse_group_config (print_config two_groups) ≡ groups_of two_groups []
unfolding is_spaceless signal_bot_tee.Common.Split.has_char
parse_group_config-print_config_example = parse_group_config-print_config two_groups (
  (refl, refl, refl),
  (refl, refl, refl),
  (refl, refl, refl),
  ((refl, refl, refl), (refl, refl, refl), (refl, refl, refl), tt),
)
