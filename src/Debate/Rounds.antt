-- ===== src/Debate/Rounds.antt =====
-- The loop of a debate, internal/debate/debate_loop.go: rounds of messages, votes and the consensus.
-- The models' answers, the prompts, the clock and the order of iteration of the votes' map are
-- arguments, and so is what each look at the context finds: the n-th look is that of `cancelled n`. The
-- ids and times that the store gives to messages are left out.
pub mod Agenda
pub mod Held
use fxcore.Prelude.{
  ℕ, zero, suc, ◌+◌, Bool, true, false, ◌&&◌, not, Option, none, some, String, str_eq, List, [],
  ◌∷◌, ◌++◌, if◌then◌else◌, ltb, length, select,
}
use fxcore.Prelude.Dict.{Dict, lookup}
use fxcore.Prelude.Float.{Float64}
use fxcore.Prelude.Text.{Text}
use fxcore.Model.Chat.{Reply, content, failed}
use fxcore.Debate.Votes.{DebateVote, Acc, aggregate}
use fxcore.Debate.Sessions.{
  DebateStatus, Session, World, set_status, set_round, conclude, execute, opens,
}
use fxcore.Debate.Ballot.{Participant, cast_vote}

-- `model.DebateMessage`
pub record DebateMessage : Type 0 where
  pub session_id : String
  pub round : ℕ
  pub participant_id : String
  pub personality : String
  pub ai_model_name : String
  pub content : String

-- What is broadcast to the subscribers.
pub data Event (F : Type 0) : Type 0 where
  insufficient vote_start : Event F
  initial round_start round_end : ℕ → Event F
  spoke : DebateMessage → Event F
  voted : DebateVote F → Event F
  consensus : Option (DebateVote F) → Event F

-- The engine and the store, the messages and votes of the store, what was broadcast, the history that
-- the prompts are given, and how often the context was looked at.
pub record Floor (F : Type 0) : Type 0 where
  pub world : World F
  pub messages : List DebateMessage
  pub votes : List (DebateVote F)
  pub events : List (Event F)
  pub history : List String
  pub looks : ℕ

pub record Setting (F M : Type 0) : Type 0 where
  pub cancelled : ℕ → Bool
  pub get_model : String → Option M
  pub speaker_prompt : Participant → String → ℕ → List String → String
  pub vote_prompt : Participant → String → String
  pub chat : M → String → Reply
  pub trim : String → String  -- `strings.TrimSpace`
  pub unavailable : Participant → String → String
  pub line : DebateMessage → String
  pub json : Text → Option (DebateVote F)
  pub shuffle : Dict (Acc F) → Dict (Acc F)
  pub now : ℕ

module _ {F : Type 0} where
  abbrev pub told : Event F → Floor F → Floor F
  told e s = record s { events = s.events ++ (e ∷ []) }

  abbrev pub looked : Floor F → Floor F
  looked s = record s { looks = s.looks + 1 }

  -- The vote that is entered is one for the session and its symbol.
  abbrev pub cast : String → String → Participant → Option (DebateVote F) → Floor F → Floor F
  cast id symbol p none s = s
  cast id symbol p (some v) s =
      let v' : DebateVote F = record v {
        session_id = id;
        ai_model_id = p.ai_model_id;
        symbol = symbol;
      } in
      told (voted v') (record s { votes = s.votes ++ (v' ∷ []) })

  abbrev votes_of : String → List (DebateVote F) → List (DebateVote F)
  votes_of id vs = select (λ v. str_eq v.session_id id) vs

module _ {F M : Type 0} where
  abbrev pub said : Setting F M → Participant → Reply → String
  said e p (content text ms) = e.trim text
  said e p (failed msg) = e.unavailable p msg

  -- `speak`, with what stands in for a failure.
  abbrev pub speech : Setting F M → Participant → String → String
  speech e p prompt = elim (e.get_model p.ai_model_id) [
    | none ↦ e.unavailable p "model not found"
    | some m ↦ said e p (e.chat m prompt)
  ]

  abbrev pub message : Setting F M → String → String → ℕ → Participant → List String → DebateMessage
  message e id symbol round p history = record {
    session_id = id;
    round = round;
    participant_id = p.id;
    personality = p.personality;
    ai_model_name = p.ai_model_name;
    content = speech e p (e.speaker_prompt p symbol round history);
  }

  abbrev pub spoken : Setting F M → String → String → ℕ → Participant → Floor F → Floor F
  spoken e id symbol round p s =
      let msg = message e id symbol round p s.history in
      told (spoke msg)
        (record s { messages = s.messages ++ (msg ∷ []); history = s.history ++ (e.line msg ∷ []) })

  -- The loop over the participants; `false` is a return from the whole loop.
  unfoldable pub speak_all :
      Setting F M → String → String → ℕ → List Participant → Floor F → Bool × Floor F
  speak_all e id symbol round [] s = (true, s)
  speak_all e id symbol round (p ∷ ps) s =
      let rest = speak_all e id symbol round ps (spoken e id symbol round p (looked s)) in
      if e.cancelled s.looks then (false, looked s) else rest

  abbrev pub opened_round : Setting F M → String → ℕ → Floor F → Floor F
  opened_round e id round s =
      told (round_start round) (record (looked s) { world = set_round e.now id round s.world })

  -- The rounds from `round` on, of which `left` are left.
  unfoldable pub rounds :
      Setting F M → String → String → List Participant → ℕ → ℕ → Floor F → Bool × Floor F
  rounds e id symbol ps round zero s = (true, s)
  rounds e id symbol ps round (suc left) s =
      let (go, s1) = speak_all e id symbol round ps (opened_round e id round s) in
      let rest = rounds e id symbol ps (round + 1) left (told (round_end round) s1) in
      if e.cancelled s.looks then (false, looked s) else if go then rest else (false, s1)

  abbrev pub ballot : Setting F M → String → Participant → Option (DebateVote F)
  ballot e symbol p = cast_vote e.get_model (λ m. e.chat m (e.vote_prompt p symbol)) e.json p symbol

  unfoldable pub vote_all :
      Setting F M → String → String → List Participant → Floor F → Bool × Floor F
  vote_all e id symbol [] s = (true, s)
  vote_all e id symbol (p ∷ ps) s =
      let rest = vote_all e id symbol ps (cast id symbol p (ballot e symbol p) (looked s)) in
      if e.cancelled s.looks then (false, looked s) else rest

  -- An open consensus is carried out, if that was asked for and there is a trader.
  abbrev pub auto_executed :
      Setting F M → String → Bool → String → Option (DebateVote F) → Floor F → Floor F
  auto_executed e id auto trader_id verdict s =
      if auto && (opens verdict && not (str_eq trader_id ""))
      then record s { world = (execute e.now id trader_id s.world).1 }
      else s

  module _ ⦃f : Float64 F⦄ where
    unfoldable pub settled : Setting F M → String → Bool → Session F → Floor F → Floor F
    settled e id auto own s =
        let verdict = aggregate e.shuffle id (votes_of id s.votes) in
        auto_executed e id auto own.meta.trader_id verdict
          (told (consensus verdict) (record s { world = conclude e.now id verdict own s.world }))

    abbrev pub after_votes : Setting F M → String → Bool → Session F → Bool × Floor F → Floor F
    after_votes e id auto own (false, s) = s
    after_votes e id auto own (true, s) = settled e id auto own s

    abbrev pub after_rounds :
        Setting F M → String → Bool → List Participant → Session F → Bool × Floor F → Floor F
    after_rounds e id auto ps own (false, s) = s
    after_rounds e id auto ps own (true, s) = after_votes e id auto own (
        vote_all e id own.meta.symbol ps
          (told vote_start (record s { world = set_status e.now id DebateStatus.voting s.world })))

    -- With the session that the loop holds, its number of rounds and its participants.
    unfoldable pub debate_loop :
        Setting F M → String → Bool → ℕ → List Participant → Session F → Floor F → Floor F
    debate_loop e id auto max_rounds ps own s =
        if ltb (length ps) 2
        then told insufficient
            (record s { world = set_status e.now id DebateStatus.cancelled s.world })
        else after_rounds e id auto ps own
            (rounds e id own.meta.symbol ps 1 max_rounds (told (initial (length ps)) s))
