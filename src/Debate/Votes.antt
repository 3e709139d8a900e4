-- ===== src/Debate/Votes.antt =====
-- `aggregate` of internal/debate/debate_loop.go. The votes are added up in a map, which is then run
-- through in an order that Go does not fix.
pub mod Winner
use fxcore.Prelude.{
  ℕ, Bool, true, false, ◌||◌, Option, none, some, String, str_eq, List, [], ◌∷◌, if◌then◌else◌,
  length,
}
use fxcore.Prelude.Int.{ℤ, pos}
use fxcore.Prelude.Float.{Float64}
use fxcore.Prelude.Dict.{Dict, lookup, insert}
use fxcore.Model.Decision.{action_wait, action_hold}

-- `model.DebateVote`, and `dto.DebateVoteDTO`.
pub record DebateVote (F : Type 0) : Type 0 where
  pub session_id : String
  pub ai_model_id : String
  pub action : String
  pub symbol : String
  pub confidence : F
  pub leverage : ℤ
  pub position_pct : F
  pub stop_loss_pct : F
  pub take_profit_pct : F
  pub reasoning : String

-- The weight of an action so far, and its first vote.
pub record Acc (F : Type 0) : Type 0 where
  pub weight : F
  pub sample : DebateVote F

module _ {F : Type 0} ⦃f : Float64 F⦄ where
  abbrev nil : F
  nil = f.dec 0 0

  abbrev weight_of : DebateVote F → F
  weight_of v = if f.le v.confidence nil then f.dec 50 0 else v.confidence

  abbrev added : DebateVote F → Option (Acc F) → Acc F
  added v none = record { weight = weight_of v; sample = v }
  added v (some a) = record a { weight = f.add a.weight (weight_of v) }

  tally : List (DebateVote F) → Dict (Acc F) → Dict (Acc F)
  tally [] m = m
  tally (v ∷ vs) m = tally vs (insert v.action (added v (lookup v.action m)) m)

  -- The loop over the map, from the best so far.
  unfoldable pub best_from : String → F → Dict (Acc F) → String × F
  best_from best weight [] = (best, weight)
  best_from best weight ((action, a) ∷ m) =
      if f.lt weight a.weight then best_from action a.weight m else best_from best weight m

  unfoldable pub best_of : Dict (Acc F) → String × F
  best_of m = best_from "" nil m

  abbrev wait_vote : String → DebateVote F
  wait_vote session_id = record {
    session_id = session_id;
    ai_model_id = "";
    action = action_wait;
    symbol = "";
    confidence = f.dec 50 0;
    leverage = pos 0;
    position_pct = nil;
    stop_loss_pct = nil;
    take_profit_pct = nil;
    reasoning = "";
  }

  abbrev consensus_vote : String → String → F → ℕ → DebateVote F → DebateVote F
  consensus_vote session_id best weight votes s = record {
    session_id = session_id;
    ai_model_id = "consensus";
    action = best;
    symbol = s.symbol;
    confidence = f.div weight (f.of_int (pos votes));
    leverage = s.leverage;
    position_pct = s.position_pct;
    stop_loss_pct = s.stop_loss_pct;
    take_profit_pct = s.take_profit_pct;
    reasoning = "weighted majority of participant votes";
  }

  abbrev sampled : String → String → F → ℕ → Option (Acc F) → DebateVote F
  sampled session_id best weight votes none = wait_vote session_id
  sampled session_id best weight votes (some a) =
      consensus_vote session_id best weight votes a.sample

  -- The outcome by the map in the order of its iteration.
  unfoldable pub outcome : String → ℕ → Dict (Acc F) → DebateVote F
  outcome session_id votes m =
      let (best, weight) = best_of m in
      if str_eq best "" || str_eq best action_wait || str_eq best action_hold
      then wait_vote session_id
      else sampled session_id best weight votes (lookup best m)

  -- `shuffle` is the order of iteration.
  abbrev aggregate_with :
      (Dict (Acc F) → Dict (Acc F)) → String → List (DebateVote F) → Option (DebateVote F)
  aggregate_with shuffle session_id [] = none
  aggregate_with shuffle session_id (v ∷ vs) =
      some (outcome session_id (length (v ∷ vs)) (shuffle (tally (v ∷ vs) [])))

  unfoldable pub aggregate :
      (Dict (Acc F) → Dict (Acc F)) → String → List (DebateVote F) → Option (DebateVote F)
  unfolding tally
  aggregate = aggregate_with
