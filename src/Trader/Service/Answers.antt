-- ===== src/Trader/Service/Answers.antt =====
-- The answers to a change of state, by what is seen of the trader. The moves are drawn one by one, and
-- the errors are written out as they are sent.
use fxcore.Prelude.{
  ℕ, ◌≡◌, ◌≢◌, ◌⊎◌, refl, sym, ◌∙◌, inl, inr, String, append, str_eq, eq_iff, true, false, Option,
  none, some, arith, if◌then◌else◌, Bool-cases, subst,
}
use mathlib.Core.Option.{some-injective}
use fxcore.Prelude.Dict.{lookup}
use fxcore.Prelude.Dict.Laws.{lookup-insert}
use fxcore.Model.Trader.{Status, same_status, Trader}
use fxcore.Middleware.ApiError.{ApiError, new_api_error}
use fxcore.Store.{Store}
use fxcore.Store.Traders.{may_use}
use fxcore.Trader.Service.{
  ServiceError, already_running, already_there, illegal_transition, transitions, status_name,
  transition, refused,
}
use fxcore.Trader.Service.Transition.{moved_in, outcome, transition_lem}

-- The moves that a trader can make.
pub data Move : Status → Status → Type 0 where
  starts : Move Status.idle Status.running
  pauses : Move Status.running Status.paused
  stops : Move Status.running Status.stopped
  resumes : Move Status.paused Status.running
  gives_up : Move Status.paused Status.stopped
  restarts : Move Status.stopped Status.running
  clears : Move Status.error Status.stopped

Move-drawn : (a b : Status) → transitions a b ≡ true → Move a b
Move-drawn Status.idle Status.idle h = cc
Move-drawn Status.idle Status.running h = starts
Move-drawn Status.idle Status.paused h = cc
Move-drawn Status.idle Status.stopped h = cc
Move-drawn Status.idle Status.error h = cc
Move-drawn Status.running Status.idle h = cc
Move-drawn Status.running Status.running h = cc
Move-drawn Status.running Status.paused h = pauses
Move-drawn Status.running Status.stopped h = stops
Move-drawn Status.running Status.error h = cc
Move-drawn Status.paused Status.idle h = cc
Move-drawn Status.paused Status.running h = resumes
Move-drawn Status.paused Status.paused h = cc
Move-drawn Status.paused Status.stopped h = gives_up
Move-drawn Status.paused Status.error h = cc
Move-drawn Status.stopped Status.idle h = cc
Move-drawn Status.stopped Status.running h = restarts
Move-drawn Status.stopped Status.paused h = cc
Move-drawn Status.stopped Status.stopped h = cc
Move-drawn Status.stopped Status.error h = cc
Move-drawn Status.error Status.idle h = cc
Move-drawn Status.error Status.running h = cc
Move-drawn Status.error Status.paused h = cc
Move-drawn Status.error Status.stopped h = clears
Move-drawn Status.error Status.error h = cc

drawn-Move : (a b : Status) → Move a b → transitions a b ≡ true
drawn-Move _ _ starts = refl
drawn-Move _ _ pauses = refl
drawn-Move _ _ stops = refl
drawn-Move _ _ resumes = refl
drawn-Move _ _ gives_up = refl
drawn-Move _ _ restarts = refl
drawn-Move _ _ clears = refl

same_status-eq : (a b : Status) → same_status a b ≡ true → a ≡ b
same_status-eq Status.idle Status.idle h = refl
same_status-eq Status.idle Status.running h = cc
same_status-eq Status.idle Status.paused h = cc
same_status-eq Status.idle Status.stopped h = cc
same_status-eq Status.idle Status.error h = cc
same_status-eq Status.running Status.idle h = cc
same_status-eq Status.running Status.running h = refl
same_status-eq Status.running Status.paused h = cc
same_status-eq Status.running Status.stopped h = cc
same_status-eq Status.running Status.error h = cc
same_status-eq Status.paused Status.idle h = cc
same_status-eq Status.paused Status.running h = cc
same_status-eq Status.paused Status.paused h = refl
same_status-eq Status.paused Status.stopped h = cc
same_status-eq Status.paused Status.error h = cc
same_status-eq Status.stopped Status.idle h = cc
same_status-eq Status.stopped Status.running h = cc
same_status-eq Status.stopped Status.paused h = cc
same_status-eq Status.stopped Status.stopped h = refl
same_status-eq Status.stopped Status.error h = cc
same_status-eq Status.error Status.idle h = cc
same_status-eq Status.error Status.running h = cc
same_status-eq Status.error Status.paused h = cc
same_status-eq Status.error Status.stopped h = cc
same_status-eq Status.error Status.error h = refl

same_status_refl : (a : Status) → same_status a a ≡ true
same_status_refl Status.idle = refl
same_status_refl Status.running = refl
same_status_refl Status.paused = refl
same_status_refl Status.stopped = refl
same_status_refl Status.error = refl

-- The caller names no user, or the trader has none, or it is that user's.
abbrev pub IsMine : String → String → Type 0
IsMine user_id owner = (user_id ≡ "") ⊎ (owner ≡ "") ⊎ (owner ≡ user_id)

may_use-IsMine : (user_id owner : String) → may_use user_id owner ≡ true → IsMine user_id owner
may_use-IsMine user_id owner h = elim (Bool-cases (str_eq user_id "")) [
  | inl a ↦ inl ((eq_iff user_id "").0 a)
  | inr a ↦ elim (Bool-cases (str_eq owner "")) [
    | inl b ↦ inr (inl ((eq_iff owner "").0 b))
    | inr b ↦ inr (inr ((eq_iff owner user_id).0 (rw (a, b) at h)))
  ]
]

IsMine-may_use : (user_id owner : String) → IsMine user_id owner → may_use user_id owner ≡ true
IsMine-may_use user_id owner (inl e) = ground (arith, eq_iff user_id "", e)
IsMine-may_use user_id owner (inr (inl e)) = ground (arith, eq_iff owner "", e)
IsMine-may_use user_id owner (inr (inr e)) = ground (arith, eq_iff owner user_id, e)

module _ {F : Type 0} (now : ℕ) (id : String) (to : Status) (user_id : String) (s : Store F) where
  -- A trader that the caller sees.
  pub record Seen (t : Trader F) : Type 0 where
    pub is_there : lookup id s.traders ≡ some t
    pub is_mine : IsMine user_id t.user_id

  -- Each answer with the store after it, and when it is given.
  pub data Answer : Option ApiError → Store F → Type 0 where
    moved :
        (t : Trader F) (s' : Store F)
        → Seen t
        → Move t.status to
        → ((j : String)
            → lookup j s'.traders ≡ (
                if str_eq id j
                then some (record t { status = to; updated_at = now })
                else lookup j s.traders))
        → s' ≡ record s { traders = s'.traders }
        → Answer none s'
    unseen :
        ((t : Trader F) → ¬ Seen t) → Answer (some (new_api_error 1004 404 "trader not found")) s
    runs_already :
        (t : Trader F)
        → Seen t
        → t.status ≡ to
        → to ≡ Status.running
        → Answer (some (new_api_error 1204 409 "trader is already running")) s
    there_already :
        (t : Trader F)
        → Seen t
        → t.status ≡ to
        → to ≢ Status.running
        → Answer (some (new_api_error 1001 400 (append "trader is already " (status_name to)))) s
    barred :
        (t : Trader F)
        → Seen t
        → t.status ≢ to
        → ¬ Move t.status to
        → Answer
            (some
              (new_api_error 1004 404 (append "illegal state transition: -> " (status_name to))))
            s

  not_permitted :
      (t : Trader F)
      → Seen t
      → transitions t.status to ≡ false
      → let why : ServiceError =
          if same_status t.status to
          then (if same_status to Status.running then already_running else already_there)
          else illegal_transition in
        Answer (some (refused to why)) s
  not_permitted t seen undrawn = elim (Bool-cases (same_status t.status to)) [
    | inl e ↦ elim (Bool-cases (same_status to Status.running)) [
      | inl r ↦
          rw (e, r)
            (runs_already t seen (same_status-eq t.status to e)
              (same_status-eq to Status.running r))
      | inr r ↦
          rw (e, r)
            (there_already t seen (same_status-eq t.status to e) (λ q. ground (arith, r, q)))
    ]
    | inr e ↦
        rw e (barred t seen (λ q. differs q e) (λ m. differs_table (drawn-Move t.status to m)))
  ]
    where
      differs : t.status ≡ to → same_status t.status to ≡ false → ⊥
      differs q e = cc (rw (q, same_status_refl to) at e)

      differs_table : transitions t.status to ≡ true → ⊥
      differs_table y = cc

  foreign :
      (t q : Trader F)
      → lookup id s.traders ≡ some t
      → may_use user_id t.user_id ≡ false
      → Seen q
      → ⊥
  foreign t q e n v =
      let same : t ≡ q = some-injective t q (sym e ∙ v.is_there) in
      let theirs : may_use user_id q.user_id ≡ false =
        subst (λ (x : Trader F). may_use user_id x.user_id ≡ false) same n in
      cc (IsMine-may_use user_id q.user_id v.is_mine)

  -- A change of state is answered in one of five ways. With no answer of an error, the trader is
  -- there, the caller may see it and the move is one of the seven drawn: the trader then has the
  -- new status and the time, and nothing else has changed. If not, nothing changes. A trader that
  -- is not there and one of another user are both "trader not found". A trader that has the status
  -- already is answered as running, or as being in it; and any other one is answered as an illegal
  -- move, which is then not drawn.
  pub transition-Answer : let (answer, s') = transition now id to user_id s in Answer answer s'
  transition-Answer = rw (transition_lem now id to user_id s) (found (lookup id s.traders) refl)
    where
      found :
          (o : Option (Trader F))
          → lookup id s.traders ≡ o
          → Answer (outcome now id to user_id s o).0 (outcome now id to user_id s o).1
      found none e = unseen (λ t v. cc (v.is_there))
      found (some t) e = elim (Bool-cases (may_use user_id t.user_id)) [
        | inr n ↦ rw n (unseen (λ q v. foreign t q e n v))
        | inl m ↦
            let seen : Seen t = record {
              is_there = e;
              is_mine = may_use-IsMine user_id t.user_id m;
            } in
            elim (Bool-cases (transitions t.status to)) [
              | inl y ↦
                  rw (m, y)
                    (moved t (moved_in now id to t s) seen (Move-drawn t.status to y)
                      (λ j. rw lookup-insert refl) refl)
              | inr y ↦ rw (m, y) (not_permitted t seen y)
            ]
      ]
