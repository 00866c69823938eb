-- ===== src/Common/TextLines.antt =====
-- `str::lines`: a text cut after each line feed, which is dropped with a carriage return before it.
use Prim.Native.Char.{Char, code}
use Prim.Native.String.{String, ◌++◌}
use mathlib.Core.Bool.{Bool, false, ◌&&◌}
use mathlib.Core.List.{List, [], ◌∷◌}
use signal_bot_tee.Common.Tests.{◌==◌, if◌then◌else◌}

abbrev pub begins_line_feed : String → Bool
begins_line_feed String.[] = false
begins_line_feed (String.◌∷◌ c s) = code c == 10

-- A character before the first of the lines
abbrev pub prepend : Char → List String → List String
prepend c [] = String.◌∷◌ c "" ∷ []
prepend c (l ∷ ls) = String.◌∷◌ c l ∷ ls

unfoldable pub lines : String → List String
lines String.[] = []
lines (String.◌∷◌ c s) =
    let rest = lines s in
    if code c == 10
    then "" ∷ rest
    else if code c == 13 && begins_line_feed s
    then rest
    else prepend c rest

-- Two texts with a line feed between them.
abbrev pub join_lines : String → String → String
join_lines a b = a ++ String.◌∷◌ "\n" b
