-- ===== src/Mcp/Stream/Chunks.antt =====
-- What a stream returns, and what its reader is shown.
use fxcore.Prelude.{
  true, Option, none, some, Option-cases, Bool-cases, List, [], ◌∷◌, ◌++◌, map, All, ◌≡◌, ◌≢◌, inl,
  inr, refl, sym, ap, ◌∙◌, arith,
}
use mathlib.Core.List.{append_assoc, append-nil}
use fxcore.Prelude.Int.{ltb_ℤ, pos}
use fxcore.Prelude.Text.{Text}
use fxcore.Mcp.Stream.{
  TokenUsage, Chunk, Reading, Event, line, ended, broken, idle, Ending, complete, read_error,
  idle_timeout, payload_of, same_text, done_mark, add_usage, chunk_of, read_chunk, handle_sse_line,
  stream, parse_sse_stream,
}

-- How an event ends the loop, if it does.
abbrev pub ending_of : Event → Option Ending
ending_of (line l) = none
ending_of ended = some complete
ending_of (broken e) = some (read_error e)
ending_of idle = some idle_timeout

-- The texts `acc ++ c`, `acc ++ c ++ d`, … of the contents `c`, `d`, …
abbrev pub prefixes : Text → List Text → List Text
prefixes acc [] = []
prefixes acc (c ∷ cs) = (acc ++ c) ∷ prefixes (acc ++ c) cs

abbrev pub joined : Text → List Text → Text
joined acc [] = acc
joined acc (c ∷ cs) = joined (acc ++ c) cs

joined-append : (acc : Text) (cs ds : List Text) → joined acc (cs ++ ds) ≡ joined (joined acc cs) ds
joined-append acc [] ds = refl
joined-append acc (c ∷ cs) ds = joined-append (acc ++ c) cs ds

prefixes-append :
    (acc : Text) (cs ds : List Text)
    → prefixes acc (cs ++ ds) ≡ prefixes acc cs ++ prefixes (joined acc cs) ds
prefixes-append acc [] ds = refl
prefixes-append acc (c ∷ cs) ds = ap (◌∷◌ (acc ++ c)) (prefixes-append (acc ++ c) cs ds)

module _ (decode : Text → Option Chunk) where
  abbrev pub content_of : Option Chunk → List Text
  content_of none = []
  content_of (some k) = elim k.content [ none ↦ [] | some c ↦ c ∷ [] ]

  -- The contents that the lines carry.
  abbrev pub contents : List Text → List Text
  contents [] = []
  contents (l ∷ ls) = content_of (chunk_of decode (payload_of l)) ++ contents ls

  abbrev Reads : Reading → List Text → Reading → Type 0
  Reads r cs s =
      (s.accumulated ≡ joined r.accumulated cs) × (s.shown ≡ r.shown ++ prefixes r.accumulated cs)

  usage-Reads :
      (u : Option TokenUsage) (r s : Reading) (cs : List Text)
      → Reads r cs s
      → Reads r cs (add_usage u s)
  usage-Reads none r s cs h = h
  usage-Reads (some u) r s cs h = elim (Bool-cases (ltb_ℤ (pos 0) u.total_tokens)) [
    | inl e ↦ rw e h
    | inr e ↦ rw e h
  ]

  chunk-Reads : (k : Option Chunk) (r : Reading) → Reads r (content_of k) (read_chunk k r)
  chunk-Reads none r = (refl, sym (append-nil r.shown))
  chunk-Reads (some k) r = elim (Option-cases k.content) [
    | inl e ↦ rw e (usage-Reads k.usage r r [] (refl, sym (append-nil r.shown)))
    | inr (c, e) ↦ rw e (usage-Reads k.usage r _ (c ∷ []) (refl, refl))
  ]

  Reads-append :
      (r s t : Reading) (cs ds : List Text) → Reads r cs s → Reads s ds t → Reads r (cs ++ ds) t
  Reads-append r s t cs ds (a, b) (c, d) = (
    c ∙ ap (λ (x : Text). joined x ds) a ∙ sym (joined-append r.accumulated cs ds),
    d
        ∙ rw (a, b, prefixes-append r.accumulated cs ds)
            (append_assoc r.shown (prefixes r.accumulated cs) _),
  )

  stream-Reads :
      (ls : List Text) (e : Event) (rest : List Event) (x : Ending) (r : Reading)
      → ending_of e ≡ some x
      → (s : Reading) × (stream decode (map line ls ++ e ∷ rest) r ≡ some (s, x))
        × Reads r (contents ls) s
  unfolding stream handle_sse_line
  stream-Reads [] (line l) rest x r h = cc
  stream-Reads [] ended rest x r h = (r, cc h, (refl, sym (append-nil r.shown)))
  stream-Reads [] (broken m) rest x r h = (r, cc h, (refl, sym (append-nil r.shown)))
  stream-Reads [] idle rest x r h = (r, cc h, (refl, sym (append-nil r.shown)))
  stream-Reads (l ∷ ls) e rest x r h =
      let k = chunk_of decode (payload_of l) in
      let (s, run, reads) = stream-Reads ls e rest x (read_chunk k r) h in
      (
        s,
        run,
        Reads-append r (read_chunk k r) s (content_of k) (contents ls) (chunk-Reads k r) reads,
      )

  -- A stream whose lines come before the end, an error or an idle timeout returns the contents
  -- that they carry, joined in order, with that ending, whatever would have come afterwards. A
  -- line with the mark of the end carries no content and does not end the stream. The callback has
  -- been given, in order, the text as it stood after each content.
  pub stream_lem :
      (ls : List Text) (e : Event) (rest : List Event) (x : Ending) (u : TokenUsage)
      → ending_of e ≡ some x
      → (s : Reading) × (stream decode
            (map line ls ++ e ∷ rest)
            (record { accumulated = []; usage = u; shown = [] })
          ≡ some (s, x))
        × (s.accumulated ≡ joined [] (contents ls))
        × (s.shown ≡ prefixes [] (contents ls))
  stream_lem ls e rest x u h =
      let (s, run, (text, shown)) =
        stream-Reads ls e rest x (record { accumulated = []; usage = u; shown = [] }) h in
      (s, run, text, shown)

same_text-eq : (s t : Text) → same_text s t ≡ true → s ≡ t
same_text-eq [] [] h = refl
same_text-eq [] (d ∷ t) h = cc
same_text-eq (c ∷ s) [] h = cc
same_text-eq (c ∷ s) (d ∷ t) h = ground (arith, same_text-eq s t)

module _ (decode : Text → Option Chunk) where
  -- The contents of payloads.
  abbrev pub payload_contents : List Text → List Text
  payload_contents [] = []
  payload_contents (p ∷ ps) = content_of decode (decode p) ++ payload_contents ps

  -- Over lines of which none holds the end mark, the parser of whole payloads and the client's loop
  -- find the same contents.
  pub parsed_contents :
      (ls : List Text)
      → All (λ l. payload_of l ≢ some done_mark) ls
      → payload_contents (parse_sse_stream ls) ≡ contents decode ls
  unfolding parse_sse_stream
  parsed_contents [] h = refl
  parsed_contents (l ∷ ls) (h, hs) =
      let ih = parsed_contents ls hs in
      elim (Option-cases (payload_of l)) [
        | inl e ↦ rw (e, parse_sse_stream) ih
        | inr ([], e) ↦ rw (e, parse_sse_stream) ih
        | inr (c ∷ s, e) ↦ elim (Bool-cases (same_text (c ∷ s) done_mark)) [
          | inl mark ↦ absurd (h (e ∙ ap some (same_text-eq (c ∷ s) done_mark mark)))
          | inr other ↦
              rw (e, other, parse_sse_stream)
                (ap (λ (cs : List Text). content_of decode (decode (c ∷ s)) ++ cs) ih)
        ]
      ]
