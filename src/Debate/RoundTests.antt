-- ===== src/Debate/RoundTests.antt =====
-- A debate of two participants over two rounds, and the theorems about it at concrete inputs.
use fxcore.Prelude.{
  ℕ, ◌≡◌, ◌⊎◌, ◌++◌, refl, false, none, some, String, List, [], ◌∷◌, arith, length,
}
use fxcore.Prelude.Float.{Fixed, fixed_float}
use fxcore.Prelude.Int.{pos}
use fxcore.Prelude.Text.{index}
use fxcore.Kernel.Parse.{half_width}
use fxcore.Model.Chat.{content}
use fxcore.Debate.Sessions
use fxcore.Debate.Sessions.{Session, World}
use fxcore.Debate.Tests.{vote, meta}
use fxcore.Debate.Ballot
use fxcore.Debate.Ballot.{Participant, extract_json_object}
use fxcore.Debate.Rounds
use fxcore.Debate.Rounds.{Floor, Setting, debate_loop}
use fxcore.Debate.Rounds.Agenda.{agenda, held}
use fxcore.Debate.Rounds.Held.{Adds, debate_loop_lem}

abbrev setting : Setting Fixed String
setting = record {
  cancelled = λ n. false;
  get_model = λ id. some id;
  speaker_prompt = λ p symbol round history. "";
  vote_prompt = λ p symbol. "";
  chat = λ m prompt. content "I vote {}." (pos 1);
  trim = λ s. s;
  unavailable = λ p error. error;
  line = λ m. m.content;
  json = λ t. some (vote "open_long");
  shuffle = λ m. m;
  now = 3;
}

abbrev participant : String → Participant
participant id = record {
  id = id;
  session_id = "d1";
  ai_model_id = "m";
  ai_model_name = "";
  personality = "bull";
}

abbrev both : List Participant
both = participant "p1" ∷ participant "p2" ∷ []

abbrev own : Session Fixed
own = record { meta = meta Sessions.DebateStatus.running; is_cancelled = false; consensus = none }

abbrev floor : Floor Fixed
floor = record {
  world = record { sessions = ("d1", own) ∷ []; records = [] };
  messages = [];
  votes = [];
  events = [];
  history = [];
  looks = 0;
}

debate_loop_lem_example :
    let s' = debate_loop setting "d1" false 2 both own floor in
    (rest : List (ℕ × String)) × (held s'.messages ++ rest ≡ held floor.messages ++ agenda both 1 2)
    × Adds (length both) "d1" own.meta.symbol floor s'
    × ((rest ≡ []) ⊎ (s'.votes ≡ floor.votes))
debate_loop_lem_example = debate_loop_lem setting "d1" false 2 both own floor (omega arith)

-- Four messages and two votes.
loop_test :
    let s' = debate_loop setting "d1" false 2 both own floor in
    (held s'.messages ≡ (1, "p1") ∷ (1, "p2") ∷ (2, "p1") ∷ (2, "p2") ∷ []) × (length s'.votes ≡ 2)
unfolding debate_loop Rounds.rounds Rounds.speak_all Rounds.vote_all Rounds.settled Ballot.cast_vote
    extract_json_object index half_width Ballot.last_index
loop_test = (refl, refl)
