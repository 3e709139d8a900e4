-- ===== src/Mcp/Stream.antt =====
-- mcp/client.go: `CallWithRequestStream` from the answer on, and mcp/sse.go. What the `select` of the
-- loop meets is a sequence of events; `json.Unmarshal` of a payload is a function of its text.
pub mod Chunks
use fxcore.Prelude.{
  ℕ, zero, suc, ◌+◌, Bool, true, false, Option, none, some, String, List, [], ◌∷◌, ◌++◌, ◌==◌, ltb,
  if◌then◌else◌, length, drop,
}
use fxcore.Prelude.Int.{ℤ, pos, ltb_ℤ}
use fxcore.Prelude.Text.{Text, codes, starts, trim_space}

pub record TokenUsage : Type 0 where
  pub provider : String
  pub model : String
  pub prompt_tokens : ℤ
  pub completion_tokens : ℤ
  pub total_tokens : ℤ

-- The decoded payload: the content of the first choice's delta, if there is a choice, and the usage.
pub record Chunk : Type 0 where
  pub content : Option Text
  pub usage : Option TokenUsage

-- The text so far, the usage last seen, and the texts that `onChunk` was called with.
pub record Reading : Type 0 where
  pub accumulated : Text
  pub usage : TokenUsage
  pub shown : List Text

abbrev pub data_prefix : Text
data_prefix = codes "data:"

abbrev pub done_mark : Text
done_mark = codes "[DONE]"

abbrev pub same_text : Text → Text → Bool
same_text [] [] = true
same_text (c ∷ s) (d ∷ t) = if c == d then same_text s t else false
same_text _ _ = false

-- The payload of a line, if it is one with data.
unfoldable pub payload_of : Text → Option Text
payload_of line =
    let trimmed = trim_space line in
    if starts data_prefix trimmed then some (trim_space (drop 5 trimmed)) else none

abbrev pub add_content : Option Text → Reading → Reading
add_content none r = r
add_content (some content) r =
    let text = r.accumulated ++ content in
    record r { accumulated = text; shown = r.shown ++ text ∷ [] }

abbrev pub add_usage : Option TokenUsage → Reading → Reading
add_usage none r = r
add_usage (some u) r =
    if ltb_ℤ (pos 0) u.total_tokens
    then record r { usage = record u { provider = ""; model = "" } }
    else r

abbrev pub read_chunk : Option Chunk → Reading → Reading
read_chunk none r = r
read_chunk (some k) r = add_usage k.usage (add_content k.content r)

module _ (decode : Text → Option Chunk) where
  -- What a line's payload is read as: nothing if it is empty, the end mark, or no JSON.
  abbrev pub chunk_of : Option Text → Option Chunk
  chunk_of none = none
  chunk_of (some []) = none
  chunk_of (some (c ∷ s)) = if same_text (c ∷ s) done_mark then none else decode (c ∷ s)

  unfoldable pub handle_sse_line : Text → Reading → Reading
  handle_sse_line line r = read_chunk (chunk_of (payload_of line)) r

pub data Event : Type 0 where
  line : Text → Event
  ended : Event
  broken : String → Event
  idle : Event

pub data Ending : Type 0 where
  complete idle_timeout : Ending
  read_error : String → Ending

-- The loop: `none` while it waits for more.
unfoldable pub stream : (Text → Option Chunk) → List Event → Reading → Option (Reading × Ending)
stream decode [] r = none
stream decode (line l ∷ es) r = stream decode es (handle_sse_line decode l r)
stream decode (ended ∷ es) r = some (r, complete)
stream decode (broken e ∷ es) r = some (r, read_error e)
stream decode (idle ∷ es) r = some (r, idle_timeout)

-- `ParseSSEStream`, of the lines of its data: the payloads that `onEvent` is called with.
unfoldable pub parse_sse_stream : List Text → List Text
parse_sse_stream [] = []
parse_sse_stream (l ∷ ls) = elim (payload_of l) [
  | none ↦ parse_sse_stream ls
  | some [] ↦ parse_sse_stream ls
  | some (c ∷ s) ↦ if same_text (c ∷ s) done_mark then [] else (c ∷ s) ∷ parse_sse_stream ls
]
