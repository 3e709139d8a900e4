-- ===== src/Mcp/Retry.antt =====
-- mcp/client.go: `doRequest` and its pauses, with `IsRetryableError` of mcp/hooks.go. What the
-- network does at each attempt, and whether the caller's context ends during the pause after it, are
-- functions of the attempt's number. A pause is listed by its number: it lasts as many times
-- `RetryWaitBase`.
pub mod Attempts
use fxcore.Prelude.{
  ℕ, zero, suc, ◌+◌, ◌-◌, ◌/◌, ◌%◌, Bool, true, false, ◌&&◌, ◌||◌, not, String, List, [], ◌∷◌, ◌++◌,
  ltb, leb, if◌then◌else◌, str_eq,
}
use fxcore.Prelude.Int.{ℤ, pos, negsuc}
use fxcore.Prelude.Text.{Text, codes, contains}

-- What an attempt leads to: no request could be built, no answer came, or its body could not be
-- read, each with the error's text; or an answer with a status and a body.
pub data Outcome : Type 0 where
  not_built not_sent not_read : Text → Outcome
  answered : ℕ → Text → Outcome

pub data Failure : Type 0 where
  no_api_key cancelled : Failure
  failed : Text → Failure
  http_error : ℕ → Text → Failure

pub data Reply : Type 0 where
  body : Text → Reply
  refused : Failure → Reply

pub record Sent : Type 0 where
  pub reply : Reply
  pub pauses : List ℕ

-- `%d` of a number, with fuel for its digits.
digits : ℕ → ℕ → Text → Text
digits zero n out = out
digits (suc fuel) n out =
    let more = digits fuel (n / 10) ((b'0' + n % 10) ∷ out) in
    if ltb n 10 then (b'0' + n) ∷ out else more

unfoldable pub show : ℕ → Text
unfolding digits
show n = digits 20 n []

-- `HTTPError.Error`
abbrev pub http_text : ℕ → Text → Text
http_text status content = codes "mcp: status " ++ (show status ++ (codes ": " ++ content))

abbrev pub default_patterns : List String
default_patterns =
    "EOF" ∷ "timeout" ∷ "connection reset" ∷ "connection refused" ∷ "temporary failure"
    ∷ "no such host" ∷ "stream error" ∷ "INTERNAL_ERROR" ∷ "status 429" ∷ "rate_limit_error"
    ∷ "upstream_empty_output" ∷ "status 502" ∷ "status 503" ∷ "status 520" ∷ "status 524" ∷ []

-- `IsRetryableError`, of an error's text
abbrev pub matches_any : Text → List String → Bool
matches_any msg [] = false
matches_any msg (p ∷ ps) = contains msg (codes p) || matches_any msg ps

abbrev pub is_success : ℕ → Bool
is_success status = leb 200 status && ltb status 300

unfoldable pub retryable : List String → Outcome → Bool
retryable patterns (not_built e) = false
retryable patterns (not_sent e) = matches_any e patterns
retryable patterns (not_read e) = matches_any e patterns
retryable patterns (answered status content) =
    not (is_success status) && matches_any (http_text status content) patterns

-- The reply of an attempt that is the last.
abbrev pub settle : Outcome → Reply
settle (not_built e) = refused (failed e)
settle (not_sent e) = refused (failed e)
settle (not_read e) = refused (failed e)
settle (answered status content) =
    if is_success status then body content else refused (http_error status content)

abbrev after_pause : ℕ → Bool → Sent → Sent
after_pause attempt true rest = record { reply = refused cancelled; pauses = attempt ∷ [] }
after_pause attempt false rest = record rest { pauses = attempt ∷ rest.pauses }

module _ (patterns : List String) (net : ℕ → Outcome) (ends : ℕ → Bool) where
  -- The loop at an attempt, with `left` more after it.
  unfoldable pub attempts : ℕ → ℕ → Sent
  attempts zero attempt = record { reply = settle (net attempt); pauses = [] }
  attempts (suc left) attempt = elim (retryable patterns (net attempt)) [
    | false ↦ record { reply = settle (net attempt); pauses = [] }
    | true ↦ after_pause attempt (ends attempt) (attempts left (suc attempt))
  ]

  -- A bound of retries below 0 makes no attempt, and the source then returns no body and no error.
  unfoldable pub do_request : String → ℤ → Sent
  do_request api_key max_retries =
      if str_eq api_key ""
      then record { reply = refused no_api_key; pauses = [] }
      else elim max_retries [
        | pos n ↦ attempts n 1
        | negsuc n ↦ record { reply = body []; pauses = [] }
      ]
