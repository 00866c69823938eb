-- ===== src/Tests/Tools.antt =====
-- A registry of two tools and an executor with a bound of four bytes.
use signal_bot_tee.Common.{ℕ, String, ◌≡◌, refl, true, some, [], ◌∷◌, List}
use signal_bot_tee.Common.Table
use signal_bot_tee.Common.StringSet
use signal_bot_tee.Tools.Registry.{get_tool, Change, registering, enabling, disabling}
use signal_bot_tee.Tools.Executor.{
  Run, finished, truncated, ToolResult, ToolExecutor, IsToolResult, execute_call,
  execute_call-IsToolResult, shorten, result_of,
}

abbrev Echo : Type 0
Echo = String → ℕ → Run × ℕ

abbrev echo : Echo
echo arguments w = (finished arguments, w)

abbrev changes : List (Change Echo)
changes =
    registering "echo" echo ∷ registering "other" echo ∷ disabling "other" ∷ enabling "none" ∷ []

abbrev executor : ToolExecutor ℕ
executor = record {
  registry = record { tools = ("echo", echo) ∷ []; enabled = "echo" ∷ [] };
  timeout_secs = 10;
  max_response_len = 4;
}

abbrev shortened : ToolResult
shortened = record { tool_call_id = "c1"; content = truncated "abcd" 6; success = true }

echo_shortened : (execute_call executor "c1" "echo" "abcdef" 0).0 ≡ some shortened
unfolding execute_call get_tool shorten result_of StringSet.contains Table.get
echo_shortened = refl

execute_call-IsToolResult_example :
    (shortened.tool_call_id ≡ "c1")
    × IsToolResult executor "echo" "abcdef" (get_tool "echo" executor.registry) 0 shortened
execute_call-IsToolResult_example =
    execute_call-IsToolResult executor "c1" "echo" "abcdef" 0 shortened echo_shortened
