-- ===== src/Mcp/Context.antt =====
-- mcp/context_guard.go with the messages of mcp/types.go and their order on the wire
-- (`buildWireMessages` of mcp/hooks.go): what is left of a conversation that is too long.
pub mod Kept
use fxcore.Prelude.{
  ℕ, zero, suc, ◌+◌, ◌-◌, ◌/◌, Bool, true, false, ◌&&◌, ◌||◌, not, String, str_eq, List, [], ◌∷◌,
  ◌++◌, ltb, leb, if◌then◌else◌, select,
}
use fxcore.Prelude.Int.{ℤ, pos, negsuc, leb_ℤ}
use fxcore.Prelude.Text.{codes, byte_len}

pub record ToolCall : Type 0 where
  pub id : String
  pub kind : String
  pub name : String
  pub arguments : String

pub record Message : Type 0 where
  pub role : String
  pub content : String
  pub reasoning_content : String
  pub tool_calls : List ToolCall
  pub tool_call_id : String

abbrev len : String → ℕ
len s = byte_len (codes s)

abbrev call_tokens : List ToolCall → ℕ
call_tokens [] = 0
call_tokens (t ∷ ts) = len t.name / 4 + len t.arguments / 4 + 4 + call_tokens ts

-- At least 6, so the source's floor of 1 is never needed; it is kept as it stands.
unfoldable pub estimate_tokens : Message → ℕ
estimate_tokens m =
    let n =
      len m.content / 4
      + len m.reasoning_content / 4
      + call_tokens m.tool_calls
      + (len m.tool_call_id / 4 + 6) in
    if ltb n 1 then 1 else n

unfoldable pub total_tokens : List Message → ℕ
total_tokens [] = 0
total_tokens (m ∷ ms) = estimate_tokens m + total_tokens ms

abbrev pub is_system : Message → Bool
is_system m = str_eq m.role "system"

abbrev pub systems : List Message → List Message
systems = select is_system

abbrev pub others : List Message → List Message
others = select (λ m. not (is_system m))

-- The loop that drops the oldest, from the total on.
unfoldable pub drop_oldest : ℕ → ℕ → List Message → List Message
drop_oldest max total [] = []
drop_oldest max total (m ∷ []) = m ∷ []
drop_oldest max total (m ∷ n ∷ ms) =
    let rest = drop_oldest max (total - estimate_tokens m) (n ∷ ms) in
    if ltb max total then rest else m ∷ n ∷ ms

unfoldable pub truncate_to_max_context : List Message → ℤ → List Message
truncate_to_max_context [] max = []
truncate_to_max_context ms (negsuc max) = ms
truncate_to_max_context ms (pos zero) = ms
truncate_to_max_context ms (pos (suc max)) =
    let total = total_tokens (systems ms) + total_tokens (others ms) in
    if leb total (suc max) then ms else systems ms ++ drop_oldest (suc max) total (others ms)

-- The order of the messages in a request's body.
abbrev pub ordered : List Message → List Message
ordered ms = systems ms ++ others ms
