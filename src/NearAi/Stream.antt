-- ===== src/NearAi/Stream.antt =====
-- crates/near-ai-client/src/client.rs: what `chat_stream` makes of the bytes that arrive.
use signal_bot_tee.Common.{
  String, text_append, str_eq, Option, none, some, List, [], ◌∷◌, Result, ok, err, if◌then◌else◌,
}
use signal_bot_tee.Common.Http.{HttpResponse, is_success}
use signal_bot_tee.Common.Trim.{strip_prefix}
use signal_bot_tee.Common.TextLines.{lines}
use signal_bot_tee.Platform.{Bytes}
use signal_bot_tee.NearAi.Client.{NearAiError, http, extract_error}

-- `ChatChunk`: the content of the delta of each choice
abbrev pub ChatChunk : Type 0
ChatChunk = List (Option String)

abbrev pub delta_content : Option ChatChunk → String
delta_content none = ""
delta_content (some []) = ""
delta_content (some (c ∷ cs)) = elim c [ none ↦ "" | some s ↦ s ]

-- `parse` is serde_json, and `lossy` is `String::from_utf8_lossy`.
module _ (parse : String → Option ChatChunk) where
  -- What a line adds to the content
  unfoldable pub line_content : String → String
  unfolding strip_prefix
  line_content line = elim (strip_prefix "data: " line) [
    | none ↦ ""
    | some payload ↦ if str_eq payload "[DONE]" then "" else delta_content (parse payload)
  ]

  unfoldable pub lines_content : List String → String
  unfolding line_content
  lines_content [] = ""
  lines_content (l ∷ ls) = text_append (line_content l) (lines_content ls)

  -- The closure over one chunk, decoded
  unfoldable pub chunk_content : String → String
  unfolding lines lines_content
  chunk_content text = lines_content (lines text)

  -- The items of the stream, for the chunks of the body; `none` is an error of the network.
  unfoldable pub stream_items :
      (Bytes → String) → List (Option Bytes) → List (Result NearAiError String)
  unfolding chunk_content
  stream_items lossy [] = []
  stream_items lossy (none ∷ chunks) = err http ∷ stream_items lossy chunks
  stream_items lossy (some bytes ∷ chunks) =
      ok (chunk_content (lossy bytes)) ∷ stream_items lossy chunks

  unfoldable pub chat_stream :
      (Bytes → String)
      → Result NearAiError HttpResponse
      → List (Option Bytes)
      → Result NearAiError (List (Result NearAiError String))
  unfolding is_success stream_items
  chat_stream lossy (err e) chunks = err e
  chat_stream lossy (ok r) chunks =
      if is_success r then ok (stream_items lossy chunks) else err (extract_error r)
