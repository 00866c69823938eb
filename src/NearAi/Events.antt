-- ===== src/NearAi/Events.antt =====
-- crates/near-ai-client/src/client.rs: what a reader of `chat_stream` gets of the events that the model
-- sends.
use signal_bot_tee.Common.{
  String, text_append, str_eq, ◌≡◌, ◌≢◌, refl, ap, ◌∙◌, Option, none, some, List, [], ◌∷◌, ok, map,
  true, false, arith, Bool-cases, inl, inr, eq_iff,
}
use signal_bot_tee.Common.Http.{HttpResponse, is_success}
use signal_bot_tee.Common.Trim.{strip_prefix}
use signal_bot_tee.Common.Split.{has_char, has_char-append}
use signal_bot_tee.Common.TextLines.{lines, join_lines}
use text.Mathlib.TextLemmas.{nil-append, cons-append}
use signal_bot_tee.Platform.{Bytes}
use signal_bot_tee.NearAi.Stream.{
  ChatChunk, line_content, lines_content, chunk_content, stream_items, chat_stream,
}

-- What a model sends, a line each: a piece of its answer, of which the first text is the JSON and the
-- second the content in it; the end of the answer; and lines that are no data, as the empty ones
-- between the events.
pub data Event : Type 0 where
  delta : String → String → Event
  done : Event
  other : String → Event

abbrev pub event_line : Event → String
event_line (delta json content) = text_append "data: " json
event_line done = "data: [DONE]"
event_line (other line) = line

abbrev pub print_events : List Event → String
print_events [] = ""
print_events (e ∷ es) = join_lines (event_line e) (print_events es)

-- The pieces of the answer, one after the other
abbrev pub spoken : List Event → String
spoken [] = ""
spoken (delta json content ∷ es) = text_append content (spoken es)
spoken (done ∷ es) = spoken es
spoken (other line ∷ es) = spoken es

-- No line feed and no carriage return
abbrev pub IsLine : String → Type 0
IsLine s = (has_char 10 s ≡ false) × (has_char 13 s ≡ false)

lines-line : (a b : String) → IsLine a → lines (join_lines a b) ≡ a ∷ lines b
unfolding lines has_char
lines-line String.[] b (no_feed, no_return) = rw (nil-append (String.◌∷◌ "\n" b)) refl
lines-line (String.◌∷◌ c a) b (no_feed, no_return) = rw (cons-append c a (String.◌∷◌ "\n" b)) (
    ground (
      arith,
      no_feed,
      no_return,
      lines-line a b (ground (arith, no_feed), ground (arith, no_return)),
    ))

strip_prefix-append : (p s : String) → strip_prefix p (text_append p s) ≡ some s
unfolding strip_prefix
strip_prefix-append String.[] s = ap (λ t. some t) (nil-append s)
strip_prefix-append (String.◌∷◌ c p) s =
    rw (cons-append c p s) (ground (arith, strip_prefix-append p s))

-- `parse` is serde_json: the first choice of an event has the content.
module _ (parse : String → Option ChatChunk) where
  abbrev pub IsEvent : Event → Type 0
  IsEvent (delta json content) =
      IsLine json
      × (json ≢ "[DONE]")
      × (rest : ChatChunk) × (parse json ≡ some (some content ∷ rest))
  IsEvent done = Unit {0}
  IsEvent (other line) = IsLine line × (strip_prefix "data: " line ≡ none)

  abbrev pub AreEvents : List Event → Type 0
  AreEvents [] = Unit {0}
  AreEvents (e ∷ es) = IsEvent e × AreEvents es

  abbrev pub AreBodies : List (List Event) → Type 0
  AreBodies [] = Unit {0}
  AreBodies (es ∷ bodies) = AreEvents es × AreBodies bodies

  line_content-stripped :
      (line json content : String) (rest : ChatChunk)
      → strip_prefix "data: " line ≡ some json
      → str_eq json "[DONE]" ≡ false
      → parse json ≡ some (some content ∷ rest)
      → line_content parse line ≡ content
  unfolding line_content
  line_content-stripped line json content rest stripped goes_on found =
      rw (line_content, stripped, goes_on, found) refl

  line_content-delta :
      (json content : String)
      → IsEvent (delta json content)
      → line_content parse (text_append "data: " json) ≡ content
  line_content-delta json content ((no_feed, no_return), more, rest, found) =
      elim (Bool-cases (str_eq json "[DONE]")) [
        | inl end ↦ absurd (more ((eq_iff json "[DONE]").0 end))
        | inr goes_on ↦
            line_content-stripped (text_append "data: " json) json content rest
              (strip_prefix-append "data: " json) goes_on found
      ]

  -- A line adds what it says, before what the lines after it say.
  chunk_content-line :
      (a b : String) {x : String}
      → IsLine a
      → line_content parse a ≡ x
      → chunk_content parse (join_lines a b) ≡ text_append x (chunk_content parse b)
  unfolding chunk_content lines_content
  chunk_content-line a b whole says =
      ap (lines_content parse) (lines-line a b whole)
      ∙ ap (λ x. text_append x (lines_content parse (lines b))) says

  IsLine-data : (json : String) → IsLine json → IsLine (text_append "data: " json)
  unfolding has_char
  IsLine-data json (no_feed, no_return) = (
    ground (arith, no_feed, has_char-append 10 "data: " json),
    ground (arith, no_return, has_char-append 13 "data: " json),
  )

  chunk_content-print_events :
      (es : List Event) → AreEvents es → chunk_content parse (print_events es) ≡ spoken es
  unfolding chunk_content lines_content line_content has_char
  chunk_content-print_events [] sent = refl
  chunk_content-print_events (delta json content ∷ es) (one, sent) =
      chunk_content-line (text_append "data: " json) (print_events es) (IsLine-data json one.0)
        (line_content-delta json content one)
      ∙ ap (text_append content) (chunk_content-print_events es sent)
  chunk_content-print_events (done ∷ es) (one, sent) =
      chunk_content-line "data: [DONE]" (print_events es) (refl, refl) refl
      ∙ nil-append (chunk_content parse (print_events es))
      ∙ chunk_content-print_events es sent
  chunk_content-print_events (other line ∷ es) ((whole, no_data), sent) =
      chunk_content-line line (print_events es) whole (rw (line_content, no_data) refl)
      ∙ nil-append (chunk_content parse (print_events es))
      ∙ chunk_content-print_events es sent

  stream_items-print_events :
      (lossy : Bytes → String) (chunks : List Bytes) (bodies : List (List Event))
      → AreBodies bodies
      → map lossy chunks ≡ map print_events bodies
      → stream_items parse lossy (map (λ c. some c) chunks) ≡ map (λ es. ok (spoken es)) bodies
  unfolding stream_items
  stream_items-print_events lossy [] [] sent h = refl
  stream_items-print_events lossy [] (es ∷ bodies) sent h = absurd (cc)
  stream_items-print_events lossy (c ∷ chunks) [] sent h = absurd (cc)
  stream_items-print_events lossy (c ∷ chunks) (es ∷ bodies) (one, sent) h =
      let first : lossy c ≡ print_events es = cc in
      let later : map lossy chunks ≡ map print_events bodies = cc in
      rw
        (
          first,
          chunk_content-print_events es one,
          stream_items-print_events lossy chunks bodies sent later,
        )
        refl

  -- If an answer is successful, the network cuts its body between the lines, and each piece of data is
  -- a line of JSON with a content in its first choice, then the stream has an item for each chunk: the
  -- contents of its events, one after the other, where the end mark and the lines that are no data add
  -- nothing.
  pub chat_stream-print_events :
      (lossy : Bytes → String) (r : HttpResponse) (chunks : List Bytes) (bodies : List (List Event))
      → is_success r ≡ true
      → AreBodies bodies
      → map lossy chunks ≡ map print_events bodies
      → chat_stream parse lossy (ok r) (map (λ c. some c) chunks)
        ≡ ok (map (λ es. ok (spoken es)) bodies)
  unfolding chat_stream
  chat_stream-print_events lossy r chunks bodies good sent h =
      rw (good, stream_items-print_events lossy chunks bodies sent h) refl
