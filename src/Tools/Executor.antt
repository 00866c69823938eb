-- ===== src/Tools/Executor.antt =====
-- crates/tools/src/executor.rs: a tool call under a timeout, and its truncated answer. `none` is the
-- panic of `&content[..max]` where the bound is inside a character.
use signal_bot_tee.Common.{
  ap, ◌⊎◌, Bool-cases, inl, inr, ◌<◌, ℕ, ◌≤◌, String, Bool, true, false, Option, none, some, ltb,
  ◌==◌, if◌then◌else◌, ◌≡◌, arith,
}
use signal_bot_tee.Common.Text.{byte_length, slice}
use signal_bot_tee.Tools.Registry.{ToolRegistry, get_tool}

-- What running a tool under the timeout gives
pub data Run : Type 0 where
  finished failed : String → Run
  timed_out : Run

-- The content of a result; the words around a name, an error, a number are not kept.
pub data Content : Type 0 where
  whole : String → Content
  truncated : String → ℕ → Content
  not_available : String → Content
  error_text : String → Content
  too_slow : ℕ → Content

pub record ToolResult : Type 0 where
  pub tool_call_id : String
  pub content : Content
  pub success : Bool

pub record ToolExecutor (W : Type 0) : Type 0 where
  pub registry : ToolRegistry (String → W → Run × W)
  pub timeout_secs : ℕ
  pub max_response_len : ℕ

-- `format!("{}... [truncated, {} chars total]", &content[..max], content.len())` if it is too long
unfoldable pub shorten : ℕ → String → Option Content
shorten max_response_len content =
    let head = slice content 0 max_response_len in
    if ltb max_response_len (byte_length content)
    then if byte_length head == max_response_len
      then some (truncated head (byte_length content))
      else none
    else some (whole content)

abbrev pub success_of : String → Option Content → Option ToolResult
success_of id none = none
success_of id (some content) =
    some (record { tool_call_id = id; content = content; success = true })

unfoldable pub result_of : {W : Type 0} → ToolExecutor W → String → Run → Option ToolResult
unfolding shorten
result_of x id (finished content) = success_of id (shorten x.max_response_len content)
result_of x id (failed e) =
    some (record { tool_call_id = id; content = error_text e; success = false })
result_of x id timed_out =
    some (record { tool_call_id = id; content = too_slow x.timeout_secs; success = false })

abbrev pub run_found :
    {W : Type 0}
    → ToolExecutor W
    → String
    → String
    → String
    → Option (String → W → Run × W)
    → W
    → Option ToolResult × W
unfolding result_of
run_found x id name arguments none w =
    (some (record { tool_call_id = id; content = not_available name; success = false }), w)
run_found x id name arguments (some tool) w =
    let (r, w') = tool arguments w in (result_of x id r, w')

-- `ToolExecutor::execute`, of a call with its id, name and arguments
unfoldable pub execute_call :
    {W : Type 0} → ToolExecutor W → String → String → String → W → Option ToolResult × W
unfolding run_found
execute_call x id name arguments = run_found x id name arguments (get_tool name x.registry)

-- What a tool that was run leads to: its output, if that fits the bound in bytes, or exactly the
-- first bound's worth of a longer output and its length, or its error, or the timeout.
abbrev pub IsOutput : ℕ → ℕ → Run → ToolResult → Type 0
IsOutput max secs (finished s) r =
    (r.success ≡ true)
    × (((byte_length s ≤ max) × (r.content ≡ whole s))
        ⊎ ((max < byte_length s)
            × (byte_length (slice s 0 max) ≡ max)
            × (r.content ≡ truncated (slice s 0 max) (byte_length s))))
IsOutput max secs (failed e) r = (r.success ≡ false) × (r.content ≡ error_text e)
IsOutput max secs timed_out r = (r.success ≡ false) × (r.content ≡ too_slow secs)

result_of-IsOutput :
    {W : Type 0} (x : ToolExecutor W) (id : String) (run : Run) (r : ToolResult)
    → result_of x id run ≡ some r
    → (r.tool_call_id ≡ id) × IsOutput x.max_response_len x.timeout_secs run r
unfolding result_of shorten
result_of-IsOutput x id (failed e) r h =
    let t : ToolResult = record { tool_call_id = id; content = error_text e; success = false } in
    let same : r ≡ t = cc in
    (ap (λ y. y.tool_call_id) same, (ap (λ y. y.success) same, ap (λ y. y.content) same))
result_of-IsOutput x id timed_out r h =
    let t : ToolResult = record {
      tool_call_id = id;
      content = too_slow x.timeout_secs;
      success = false;
    } in
    let same : r ≡ t = cc in
    (ap (λ y. y.tool_call_id) same, (ap (λ y. y.success) same, ap (λ y. y.content) same))
result_of-IsOutput x id (finished s) r h =
    let max = x.max_response_len in
    let head : String = slice s 0 max in
    elim (Bool-cases (ltb max (byte_length s))) [
      | inr short ↦
          let t : ToolResult = record { tool_call_id = id; content = whole s; success = true } in
          let same : r ≡ t = ground (arith, short, h) in
          (
            ap (λ y. y.tool_call_id) same,
            (ap (λ y. y.success) same, inl (ground (arith, short), ap (λ y. y.content) same)),
          )
      | inl long ↦ elim (Bool-cases (byte_length head == max)) [
        | inr cut ↦ absurd (ground (arith, long, cut, h))
        | inl exact ↦
            let t : ToolResult = record {
              tool_call_id = id;
              content = truncated head (byte_length s);
              success = true;
            } in
            let same : r ≡ t = ground (arith, long, exact, h) in
            (
              ap (λ y. y.tool_call_id) same,
              (
                ap (λ y. y.success) same,
                inr (ground (arith, long), ground (arith, exact), ap (λ y. y.content) same),
              ),
            )
      ]
    ]

-- The result of a call, by the tool that the registry gives for its name
abbrev pub IsToolResult :
    {W : Type 0}
    → ToolExecutor W
    → String
    → String
    → Option (String → W → Run × W)
    → W
    → ToolResult
    → Type 0
IsToolResult x name arguments none w r = (r.success ≡ false) × (r.content ≡ not_available name)
IsToolResult x name arguments (some tool) w r =
    IsOutput x.max_response_len x.timeout_secs (tool arguments w).0 r

run_found-IsToolResult :
    {W : Type 0} (x : ToolExecutor W) (id name arguments : String)
    (tool : Option (String → W → Run × W)) (w : W) (r : ToolResult)
    → (run_found x id name arguments tool w).0 ≡ some r
    → (r.tool_call_id ≡ id) × IsToolResult x name arguments tool w r
unfolding run_found
run_found-IsToolResult x id name arguments none w r h =
    let t : ToolResult = record {
      tool_call_id = id;
      content = not_available name;
      success = false;
    } in
    let answered : some t ≡ some r = h in
    let same : r ≡ t = cc in
    (ap (λ y. y.tool_call_id) same, (ap (λ y. y.success) same, ap (λ y. y.content) same))
run_found-IsToolResult x id name arguments (some tool) w r h =
    result_of-IsOutput x id (tool arguments w).0 r h

-- A result, where the executor did not panic, carries the id of its call. Its content is the output
-- of the tool that the registry gives for the name, run on the arguments, if that fits the bound in
-- bytes, exactly the first bound's worth of a longer output with its length, the tool's error, the
-- timeout, or that there is no such tool; and it says success only of an output.
pub execute_call-IsToolResult :
    {W : Type 0} (x : ToolExecutor W) (id name arguments : String) (w : W) (r : ToolResult)
    → (execute_call x id name arguments w).0 ≡ some r
    → (r.tool_call_id ≡ id) × IsToolResult x name arguments (get_tool name x.registry) w r
unfolding execute_call
execute_call-IsToolResult x id name arguments w r h =
    run_found-IsToolResult x id name arguments (get_tool name x.registry) w r h
