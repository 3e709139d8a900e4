-- ===== src/Debate/Sessions.antt =====
-- internal/debate/engine.go, with the store's record of each session (internal/store/debate_store.go,
-- without a database), and what the loop of a session writes. The clock is an argument.
pub mod Life
use fxcore.Prelude.{
  ℕ, Bool, true, false, ◌&&◌, ◌||◌, not, Option, none, some, String, append, str_eq, List, [], ◌∷◌,
  if◌then◌else◌, is_some,
}
use fxcore.Prelude.Dict.{Dict, lookup, insert, erase}
use fxcore.Middleware.ApiError.{ApiError, bad_request, not_found, debate_not_executable}
use fxcore.Store.Traders.{may_use}
use fxcore.Model.Decision.{is_opening}
use fxcore.Debate.Votes.{DebateVote}

-- The five constants of internal/api/v1/dto/debate.go.
pub data DebateStatus : Type 0 where
  pending running voting completed cancelled : DebateStatus

abbrev pub is_pending : DebateStatus → Bool
is_pending DebateStatus.pending = true
is_pending _ = false

abbrev pub is_active : DebateStatus → Bool
is_active DebateStatus.running = true
is_active DebateStatus.voting = true
is_active _ = false

abbrev pub is_completed : DebateStatus → Bool
is_completed DebateStatus.completed = true
is_completed _ = false

-- `model.DebateSession`, the fields that the engine reads or writes.
pub record DebateSession : Type 0 where
  pub id : String
  pub user_id : String
  pub status : DebateStatus
  pub symbol : String
  pub current_round : ℕ
  pub trader_id : String
  pub updated_at : ℕ

-- `session`. Whether its context is cancelled stands for its cancel function.
pub record Session (F : Type 0) : Type 0 where
  pub meta : DebateSession
  pub is_cancelled : Bool
  pub consensus : Option (DebateVote F)

-- The engine's sessions and the store's.
pub record World (F : Type 0) : Type 0 where
  pub sessions : Dict (Session F)
  pub records : Dict DebateSession

abbrev status_name : DebateStatus → String
status_name DebateStatus.pending = "pending"
status_name DebateStatus.running = "running"
status_name DebateStatus.voting = "voting"
status_name DebateStatus.completed = "completed"
status_name DebateStatus.cancelled = "cancelled"

abbrev named : String → DebateStatus → String
named text s = append text (append (status_name s) ")")

abbrev pub no_session : ApiError
no_session = not_found "debate session not found"

abbrev visible_to : String → Option DebateSession → Bool
visible_to user_id none = false
visible_to user_id (some d) = may_use user_id d.user_id

module _ {F : Type 0} where
  abbrev pub with_meta : DebateSession → Session F → Session F
  with_meta d s = record s { meta = d }

  abbrev pub with_status : DebateStatus → Session F → Session F
  with_status status s = record s { meta = record (s.meta) { status = status } }

  -- The status and the round come from the store.
  abbrev pub synced : Option DebateSession → Session F → Session F
  synced none s = s
  synced (some d) s = record s {
    meta = record (s.meta) { status = d.status; current_round = d.current_round };
  }

  abbrev pub lost : String → Session F
  lost id = record {
    meta = record {
      id = id;
      user_id = "";
      status = DebateStatus.completed;
      symbol = "";
      current_round = 0;
      trader_id = "";
      updated_at = 0;
    };
    is_cancelled = false;
    consensus = none;
  }

  abbrev pub held : String → Option (Session F) → Option DebateSession → Option (Session F)
  held id (some s) o = some (synced o s)
  held id none (some d) = some (lost id)
  held id none none = none

  -- `none` is the error that there is no such session.
  unfoldable pub get_session : String → World F → Option (Session F)
  get_session id w = held id (lookup id w.sessions) (lookup id w.records)

  -- A session that the engine does not hold is a copy, and stays out of its map.
  abbrev put : String → Session F → Dict (Session F) → Dict (Session F)
  put id s ss = elim (lookup id ss) [ none ↦ ss | some old ↦ insert id s ss ]

  -- What reading a session writes: the engine's session takes the status and the round of the store.
  unfoldable pub refresh : String → World F → World F
  refresh id w = elim (lookup id w.sessions) [
    | none ↦ w
    | some s ↦ record w { sessions = insert id (synced (lookup id w.records) s) w.sessions }
  ]

  -- The session as it is now, in the engine and in the store.
  abbrev pub save : ℕ → String → Session F → World F → World F
  save now id s w = record w {
    sessions = put id s w.sessions;
    records = insert id (record (s.meta) { updated_at = now }) w.records;
  }

  abbrev pub started : ℕ → String → Option (Session F) → World F → Option ApiError × World F
  started now id none w = (some no_session, w)
  started now id (some s) w =
      if is_pending s.meta.status
      then (none, save now id (with_status DebateStatus.running s) w)
      else (some (bad_request (named "session not pending (status=" s.meta.status) []), w)

  unfoldable pub start : ℕ → String → String → World F → Option ApiError × World F
  start now user_id id w =
      if visible_to user_id (lookup id w.records)
      then started now id (get_session id w) (refresh id w)
      else (some no_session, w)

  abbrev pub stopped : Session F → Session F
  stopped s = record (with_status DebateStatus.cancelled s) { is_cancelled = true }

  abbrev pub cancelled_session :
      ℕ → String → Option (Session F) → World F → Option ApiError × World F
  cancelled_session now id none w = (some no_session, w)
  cancelled_session now id (some s) w =
      if is_active s.meta.status
      then (none, save now id (stopped s) w)
      else (some (bad_request (named "session not active (status=" s.meta.status) []), w)

  unfoldable pub cancel : ℕ → String → String → World F → Option ApiError × World F
  cancel now user_id id w =
      if visible_to user_id (lookup id w.records)
      then cancelled_session now id (get_session id w) (refresh id w)
      else (some no_session, w)

  -- A consensus to open a position.
  abbrev pub opens : Option (DebateVote F) → Bool
  opens none = false
  opens (some v) = is_opening v.action

  abbrev for_trader : String → Session F → Session F
  for_trader trader_id s = record s { meta = record (s.meta) { trader_id = trader_id } }

  abbrev pub executed :
      ℕ → String → String → Option (Session F) → World F → Option ApiError × World F
  executed now id trader_id none w = (some no_session, w)
  executed now id trader_id (some s) w =
      if not (is_completed s.meta.status)
      then (some (debate_not_executable (named "debate not completed (status=" s.meta.status)), w)
      else (if opens s.consensus
          then (none, save now id (for_trader trader_id s) w)
          else (some (debate_not_executable "no open consensus in votes"), w))

  unfoldable pub execute : ℕ → String → String → World F → Option ApiError × World F
  execute now id trader_id w = executed now id trader_id (get_session id w) (refresh id w)

  abbrev pub deleted : String → Option (Session F) → World F → Option ApiError × World F
  deleted id none w = (some no_session, w)
  deleted id (some s) w =
      if is_active s.meta.status
      then (some (bad_request "cannot delete an active debate" []), w)
      else (
        if is_some (lookup id w.records) then none else some no_session,
        record { sessions = erase id w.sessions; records = erase id w.records },
      )

  unfoldable pub delete : String → World F → Option ApiError × World F
  delete id w = deleted id (get_session id w) (refresh id w)

  -- `setStatus` and `setRound`, which the loop calls.
  abbrev status_set : ℕ → String → DebateStatus → Option (Session F) → World F → World F
  status_set now id status none w = w
  status_set now id status (some s) w = save now id (with_status status s) w

  unfoldable pub set_status : ℕ → String → DebateStatus → World F → World F
  set_status now id status w = status_set now id status (lookup id w.sessions) w

  abbrev round_set : ℕ → String → ℕ → Option (Session F) → World F → World F
  round_set now id round none w = w
  round_set now id round (some s) w =
      save now id (with_meta (record (s.meta) { current_round = round }) s) w

  unfoldable pub set_round : ℕ → String → ℕ → World F → World F
  set_round now id round w = round_set now id round (lookup id w.sessions) w

  abbrev concluded : Option (DebateVote F) → Session F → Session F
  concluded consensus s = record (with_status DebateStatus.completed s) { consensus = consensus }

  abbrev or_own : Session F → Option (Session F) → Session F
  or_own own none = own
  or_own own (some s) = s

  -- The end of the loop, which holds the session `own`, also when the engine does not any more.
  unfoldable pub conclude : ℕ → String → Option (DebateVote F) → Session F → World F → World F
  conclude now id consensus own w =
      save now id (concluded consensus (or_own own (lookup id w.sessions))) w
