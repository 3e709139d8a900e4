-- ===== src/Mcp/Tests.antt =====
-- Runs of the model client, and the theorems about it at concrete inputs.
use fxcore.Prelude.{
  ℕ, zero, suc, ◌≤◌, ◌<◌, false, Option, none, some, String, List, [], ◌∷◌, ◌++◌, map, ◌≡◌, ◌⊎◌,
  refl, arith,
}
use fxcore.Prelude.Int.{pos}
use fxcore.Prelude.Text.{Text, codes, index, byte_len, trim_left}
use fxcore.Mcp.Context
use fxcore.Mcp.Context.{Message}
use fxcore.Mcp.Context.Kept.{Cut, truncate_lem}
use fxcore.Mcp.Retry
use fxcore.Mcp.Retry.{Outcome, answered, not_sent, Sent, body}
use fxcore.Mcp.Retry.Attempts.{Settled, do_request-Settled}
use fxcore.Mcp.Stream
use fxcore.Mcp.Stream.{
  TokenUsage, Chunk, Reading, Event, line, broken, Ending, read_error, payload_of, done_mark,
}
use fxcore.Mcp.Stream.Chunks.{joined, prefixes, contents, stream_lem}
use fxcore.Mcp.Url
use fxcore.Mcp.Url.{Client, hash}
use fxcore.Mcp.Url.Endpoint.{full_url_stays}

abbrev message : String → String → Message
message role content = record {
  role = role;
  content = content;
  reasoning_content = "";
  tool_calls = [];
  tool_call_id = "";
}

abbrev talk : List Message
talk =
    message "user" "an old question"
    ∷ message "system" "be short"
    ∷ message "user" "a question"
    ∷ []

truncate_test :
    Context.truncate_to_max_context talk (pos 17)
    ≡ message "system" "be short" ∷ message "user" "a question" ∷ []
unfolding Context.truncate_to_max_context Context.drop_oldest Context.total_tokens
    Context.estimate_tokens byte_len
truncate_test = refl

truncate_lem_example :
    ((Context.total_tokens talk ≤ 17) × (Context.truncate_to_max_context talk (pos 17) ≡ talk))
    ⊎ ((17 < Context.total_tokens talk)
        × Cut 17 talk (Context.truncate_to_max_context talk (pos 17)))
truncate_lem_example = truncate_lem talk 17 (omega arith)

-- The network is busy once, and then answers.
abbrev net : ℕ → Outcome
net zero = not_sent (codes "EOF")
net (suc zero) = answered 429 (codes "busy")
net (suc (suc n)) = answered 200 (codes "ok")

retry_test :
    Retry.do_request Retry.default_patterns net (λ a. false) "key" (pos 3)
    ≡ record { reply = body (codes "ok"); pauses = 1 ∷ [] }
unfolding Retry.do_request Retry.attempts Retry.retryable Retry.show index
retry_test = refl

do_request-Settled_example :
    Settled Retry.default_patterns net
      (λ a. false)
      3
      1
      (Retry.do_request Retry.default_patterns net (λ a. false) "key" (pos 3))
do_request-Settled_example =
    do_request-Settled Retry.default_patterns net (λ a. false) "key" 3 (λ e. cc)

abbrev no_usage : TokenUsage
no_usage = record {
  provider = "";
  model = "";
  prompt_tokens = pos 0;
  completion_tokens = pos 0;
  total_tokens = pos 0;
}

-- A payload is its own content.
abbrev as_content : Text → Option Chunk
as_content t = some (record { content = some t; usage = none })

abbrev lines : List Text
lines = codes "data: a" ∷ codes ": a comment" ∷ codes "data: [DONE]" ∷ codes "data: b" ∷ []

stream_lem_example :
    (s : Reading) × (Stream.stream as_content
        (map line lines ++ broken "reset" ∷ [])
        (record { accumulated = []; usage = no_usage; shown = [] })
      ≡ some (s, read_error "reset"))
    × (s.accumulated ≡ joined [] (contents as_content lines))
    × (s.shown ≡ prefixes [] (contents as_content lines))
stream_lem_example =
    stream_lem as_content lines (broken "reset") [] (read_error "reset") no_usage refl

contents_test : joined [] (contents as_content lines) ≡ codes "ab"
unfolding payload_of trim_left
contents_test = refl

abbrev client : Client
client = record {
  provider = "claude";
  api_key = "";
  base_url = [];
  model = "";
  use_full_url = false;
}

full_url_stays_example :
    let first = Url.set_api_key "k" (codes "https://a/run" ++ hash ∷ []) "" client in
    let second = Url.set_api_key "k" (codes "https://b/v1") "" first in
    (Url.build_url first ≡ codes "https://a/run")
    × (Url.build_claude_url first ≡ codes "https://a/run")
    × (Url.build_url second ≡ codes "https://b/v1")
    × (Url.build_claude_url second ≡ codes "https://b/v1")
full_url_stays_example =
    full_url_stays (codes "https://a/run") (codes "https://b/v1") "k" "k" "" "" client (λ e. cc)
      refl
