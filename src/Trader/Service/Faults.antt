-- ===== src/Trader/Service/Faults.antt =====
-- Starting a paused trader, and resuming one that is not paused.
use fxcore.Prelude.{ℕ, ◌≡◌, refl, String, eq_iff, true, false, none, some, arith}
use fxcore.Prelude.Dict.{lookup}
use fxcore.Prelude.Dict.Laws.{lookup-insert}
use fxcore.Model.Trader.{Status, Trader}
use fxcore.Middleware.ApiError.{internal}
use fxcore.Store.{Store}
use fxcore.Store.Traders.{may_use, with_trader}
use fxcore.Trader.Runners
use fxcore.Trader.Runners.{Runners, is_running}
use fxcore.Trader.Service.{with_status, transition, start, resume, started}
use fxcore.Trader.Service.Transition.{moved_in, outcome, transition_lem}

module _ {F : Type 0} where
  -- Starting a paused trader whose loop is there fails inside the server, and leaves the trader idle
  -- while its loop stays.
  pub start_paused :
      (now : ℕ) (id user_id : String) (s : Store F) (rs : Runners) (t : Trader F)
      → lookup id s.traders ≡ some t
      → t.status ≡ Status.paused
      → may_use user_id t.user_id ≡ true
      → is_running id rs ≡ true
      → let (e, w) = start now id user_id (record { store = s; engine = some rs }) in
        (e ≡ some (internal "engine start failed: engine: trader already running"))
        × (lookup id w.store.traders
            ≡ some (record (with_status Status.idle t) { updated_at = now }))
        × (w.engine ≡ some rs)
  unfolding start Runners.start with_trader
  start_paused now id user_id s rs t found paused mine mounted =
      let moved : transition now id Status.running user_id s
          ≡ (none, moved_in now id Status.running t s) =
        rw (transition_lem, found, outcome) (rw (mine, paused) refl) in
      let there : lookup id (moved_in now id Status.running t s).traders
          ≡ some (record (with_status Status.running t) { updated_at = now }) =
        rw lookup-insert (ground (arith, eq_iff id id)) in
      rw (moved, start, started)
        (rw mounted
          (refl, rw (there, with_trader) (rw lookup-insert (ground (arith, eq_iff id id))), refl))

  -- Resuming an idle trader that has no loop succeeds: the trader runs from then on by its status,
  -- and still has no loop.
  pub resume_idle :
      (now : ℕ) (id user_id : String) (s : Store F) (rs : Runners) (t : Trader F)
      → lookup id s.traders ≡ some t
      → t.status ≡ Status.idle
      → may_use user_id t.user_id ≡ true
      → is_running id rs ≡ false
      → let (e, w) = resume now id user_id (record { store = s; engine = some rs }) in
        (e ≡ none)
        × (lookup id w.store.traders
            ≡ some (record (with_status Status.running t) { updated_at = now }))
        × (w.engine ≡ some rs)
  unfolding resume
  resume_idle now id user_id s rs t found idle mine unmounted =
      let moved : transition now id Status.running user_id s
          ≡ (none, moved_in now id Status.running t s) =
        rw (transition_lem, found, outcome) (rw (mine, idle) refl) in
      rw moved (refl, rw lookup-insert (ground (arith, eq_iff id id)), refl)
