-- ===== src/Dispatch/Groups.antt =====
-- crates/signal-bot/src/translation_interceptor.rs: the configuration of the groups that are translated.
pub mod RoundTrip
use Prim.Native.String.{◌∷◌ as text_cons}
use signal_bot_tee.Common.Table
use signal_bot_tee.Common.{String, str_eq, Option, none, some, List, [], ◌∷◌, if◌then◌else◌}
use signal_bot_tee.Common.Table.{Table}
use signal_bot_tee.Common.Trim.{trim}
use signal_bot_tee.Common.Split.{split}

-- A group and its two languages
abbrev pub Entry : Type 0
Entry = String × (String × String)

abbrev pub entry_of : List String → Option Entry
entry_of (group ∷ a ∷ b ∷ []) = some (trim group, (trim a, trim b))
entry_of _ = none

unfoldable pub parse_entry : String → Option Entry
unfolding trim split
parse_entry entry = entry_of (split 58 (trim entry))

abbrev pub inserted : Option Entry → Table (String × String) → Table (String × String)
inserted none groups = groups
inserted (some (group, languages)) groups = Table.put group languages groups

-- `filter_map` and `collect`: a later entry of a group replaces an earlier one.
unfoldable pub collected : List String → Table (String × String) → Table (String × String)
unfolding parse_entry
collected [] groups = groups
collected (entry ∷ entries) groups = collected entries (inserted (parse_entry entry) groups)

unfoldable pub parse_group_config : String → Table (String × String)
unfolding collected split
parse_group_config config = if str_eq config "" then [] else collected (split 44 config) []
