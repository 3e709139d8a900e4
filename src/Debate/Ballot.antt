-- ===== src/Debate/Ballot.antt =====
-- `extractJSONObject` and `castVote` of internal/debate/debate_loop.go: a vote read from a model's
-- answer. `json.Unmarshal` of a vote is an argument.
pub mod Object
use fxcore.Prelude.{
  ℕ, zero, suc, ◌+◌, ◌-◌, Bool, true, false, not, Option, none, some, String, str_eq, List, [], ◌∷◌,
  leb, ◌==◌, if◌then◌else◌, length, take, drop,
}
use fxcore.Prelude.Float.{Float64}
use fxcore.Prelude.Text.{Text, codes, index, next}
use fxcore.Model.Chat.{Reply, content, failed}
use fxcore.Kernel.Parse.{json_fence, fence, fix_full_width, valid_action}
use fxcore.Debate.Votes.{DebateVote}

-- `strings.LastIndex` of one code point
unfoldable pub last_index : Text → ℕ → Option ℕ
last_index [] c = none
last_index (d ∷ s) c = elim (last_index s c) [
  | some n ↦ some (suc n)
  | none ↦ if d == c then some 0 else none
]

-- Without a closing fence the text stays whole.
abbrev pub unfenced : Text → Option ℕ → Text
unfenced raw none = raw
unfenced raw (some i) =
    let rest = drop (i + length json_fence) raw in
    elim (index rest fence) [ none ↦ raw | some j ↦ take j rest ]

-- `raw[start : end+1]`, and the empty text for a failure.
abbrev pub cut_object : Text → Option ℕ → Option ℕ → Text
cut_object raw none end = []
cut_object raw (some i) none = []
cut_object raw (some i) (some j) = if leb j i then [] else drop i (take (suc j) raw)

abbrev pub braced : Text → Text
braced raw = cut_object raw (index raw (b'{' ∷ [])) (last_index raw b'}')

unfoldable pub extract_json_object : Text → Text
extract_json_object raw = braced (unfenced raw (index raw json_fence))

-- `model.DebateParticipant`, the fields that the loop reads.
pub record Participant : Type 0 where
  pub id : String
  pub session_id : String
  pub ai_model_id : String
  pub ai_model_name : String
  pub personality : String

module _ {F : Type 0} where
  -- A vote with no symbol is one for the session's.
  abbrev pub accepted : Participant → String → DebateVote F → Option (DebateVote F)
  accepted p symbol v =
      if valid_action v.action
      then some (record v {
        session_id = p.session_id;
        ai_model_id = p.ai_model_id;
        symbol = if str_eq v.symbol "" then symbol else v.symbol;
      })
      else none

  abbrev pub judged : Participant → String → Option (DebateVote F) → Option (DebateVote F)
  judged p symbol none = none
  judged p symbol (some v) = accepted p symbol v

  abbrev pub read_vote :
      (Text → Option (DebateVote F)) → Participant → String → Text → Option (DebateVote F)
  read_vote json p symbol [] = none
  read_vote json p symbol (c ∷ cs) = judged p symbol (json (fix_full_width (c ∷ cs)))

  abbrev pub vote_in :
      (Text → Option (DebateVote F)) → Participant → String → Reply → Option (DebateVote F)
  vote_in json p symbol (failed msg) = none
  vote_in json p symbol (content text ms) =
      read_vote json p symbol (extract_json_object (codes text))

  abbrev pub asked :
      {M : Type 0}
      → (M → Reply)
      → (Text → Option (DebateVote F))
      → Participant
      → String
      → Option M
      → Option (DebateVote F)
  asked chat json p symbol none = none
  asked chat json p symbol (some m) = vote_in json p symbol (chat m)

  -- `none` is an error: no such model, no answer, or no vote in it.
  unfoldable pub cast_vote :
      {M : Type 0}
      → (String → Option M)
      → (M → Reply)
      → (Text → Option (DebateVote F))
      → Participant
      → String
      → Option (DebateVote F)
  cast_vote get chat json p symbol = asked chat json p symbol (get p.ai_model_id)
