-- ===== src/Model/Chat.antt =====
-- The answer of `Client.Chat` of internal/llm/client.go.
use fxcore.Prelude.{String}
use fxcore.Prelude.Int.{ℤ}

-- A text and the milliseconds that it took, or an error.
pub data Reply : Type 0 where
  content : String → ℤ → Reply
  failed : String → Reply
