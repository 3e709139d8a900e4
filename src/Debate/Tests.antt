-- ===== src/Debate/Tests.antt =====
-- A vote, a session that is cancelled before its loop ends, and the theorems about them at concrete
-- inputs.
use fxcore.Prelude.{◌≡◌, refl, false, none, some, String, [], ◌∷◌, arith}
use fxcore.Prelude.Int.{pos, ◌+ℤ◌, ◌*ℤ◌, quot}
use fxcore.Prelude.Float.{Fixed, fixed_float}
use fxcore.Prelude.Dict.{Dict, lookup, insert}
use fxcore.Debate.Votes
use fxcore.Debate.Votes.{DebateVote, Acc}
use fxcore.Debate.Votes.Winner.{IsTransitive}
use fxcore.Debate.Sessions
use fxcore.Debate.Sessions.{DebateStatus, DebateSession, Session, World}
use fxcore.Debate.Sessions.Life.{cancelled_executes}

abbrev pub vote : String → DebateVote Fixed
vote action = record {
  session_id = "d1";
  ai_model_id = "m";
  action = action;
  symbol = "BTC-USDT";
  confidence = pos 800_000;
  leverage = pos 5;
  position_pct = pos 0;
  stop_loss_pct = pos 0;
  take_profit_pct = pos 0;
  reasoning = "";
}

abbrev acc : String → Acc Fixed
acc action = record { weight = pos 800_000; sample = vote action }

aggregate_test :
    Votes.aggregate (λ m. m) "d1" (vote "wait" ∷ vote "open_long" ∷ vote "open_long" ∷ [])
    ≡ some (record (vote "open_long") {
      ai_model_id = "consensus";
      confidence = pos 533_333;
      reasoning = "weighted majority of participant votes";
    })
unfolding Votes.aggregate Votes.outcome Votes.best_of Votes.best_from lookup insert ◌+ℤ◌ ◌*ℤ◌ quot
aggregate_test = refl

fixed-IsTransitive : IsTransitive fixed_float.lt
fixed-IsTransitive a b c p q = ground (arith, p, q)

fixed_irreflexive : (a : Fixed) → fixed_float.lt a a ≡ false
fixed_irreflexive a = ground arith

abbrev weighed : Dict (Acc Fixed)
weighed = ("wait", acc "wait") ∷ ("open_long", acc "open_long") ∷ []

abbrev pub meta : DebateStatus → DebateSession
meta status = record {
  id = "d1";
  user_id = "u1";
  status = status;
  symbol = "BTC-USDT";
  current_round = 1;
  trader_id = "";
  updated_at = 0;
}

abbrev session : Session Fixed
session = record { meta = meta DebateStatus.voting; is_cancelled = false; consensus = none }

abbrev debating : World Fixed
debating = record {
  sessions = ("d1", session) ∷ [];
  records = ("d1", meta DebateStatus.voting) ∷ [];
}

cancelled_executes_example :
    let (e, w₁) = Sessions.cancel 7 "u1" "d1" debating in
    (e ≡ none)
    × ((Sessions.execute 9 "d1" "t1"
          (Sessions.conclude 8 "d1" (some (vote "open_long")) session w₁)).0
        ≡ none)
cancelled_executes_example =
    cancelled_executes 7 8 9 "u1" "d1" "t1" debating session session (meta DebateStatus.voting)
      (vote "open_long") (unfold lookup in refl) (unfold lookup in refl) refl refl refl
