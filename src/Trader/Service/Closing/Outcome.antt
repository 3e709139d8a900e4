-- ===== src/Trader/Service/Closing/Outcome.antt =====
-- Closing a position through the service, on every branch, and the listing of positions.
use fxcore.Prelude.{
  ℕ, ◌≡◌, refl, inl, inr, String, eq_iff, true, false, Option, none, some, List, [], arith, is_some,
  Option-cases,
}
use fxcore.Prelude.Dict.{lookup}
use fxcore.Prelude.Dict.Laws.{lookup-insert}
use fxcore.Prelude.Float.{Float64}
use fxcore.Model.Trader.{Trader, Position}
use fxcore.Middleware.ApiError.{bad_request, not_found}
use fxcore.Store.{Store}
use fxcore.Store.Traders.{with_trader_and_positions}
use fxcore.Store.Positions
use fxcore.Store.Positions.{get_position, closed}
use fxcore.Store.Positions.Closing.{close_position_open, close_position_refused}
use fxcore.Trader.Service.Closing.{Closed, ok, err, allowed, settled, closed_with, close_position}

module _ {F : Type 0} ⦃f : Float64 F⦄ where
  -- The trader of the closed position, if it is there, has the profit in its metrics, and its win rate
  -- counts the position.
  abbrev settled_trader : ℕ → F → String → List (Position F) → Option (Trader F) → Option (Trader F)
  settled_trader now pnl id ps none = none
  settled_trader now pnl id ps (some t) = some (record (settled pnl id ps t) { updated_at = now })

  -- A close that has taken place.
  abbrev pub HasClosed : ℕ → String → F → Store F → Position F → Closed F × Store F → Type 0
  HasClosed now id pnl s p (answer, s') =
      (answer ≡ ok (closed now pnl p))
      × (get_position id s' ≡ some (closed now pnl p))
      × (lookup p.trader_id s'.traders
          ≡ settled_trader now pnl p.trader_id s'.positions (lookup p.trader_id s.traders))

  abbrev pub Expected :
      ℕ → String → String → F → Store F → Option (Position F) → Closed F × Store F → Type 0
  Expected now user_id id pnl s none r = r ≡ (err (not_found "position not found"), s)
  Expected now user_id id pnl s (some p) r =
      (allowed user_id s (some p) ≡ false → r ≡ (err (not_found "position not found"), s))
      × (allowed user_id s (some p) ≡ true
          → is_some p.closed_at ≡ true
          → r ≡ (err (bad_request "position already closed" []), s))
      × (allowed user_id s (some p) ≡ true
          → is_some p.closed_at ≡ false
          → HasClosed now id pnl s p r)

  settle-HasClosed :
      (now : ℕ) (id : String) (pnl : F) (s s' : Store F) (p : Position F)
      → get_position id s' ≡ some (closed now pnl p)
      → s'.traders ≡ s.traders
      → HasClosed now id pnl s p (closed_with now pnl id (some (closed now pnl p), true, s'))
  unfolding with_trader_and_positions get_position
  settle-HasClosed now id pnl s s' p found same =
      elim (Option-cases (lookup p.trader_id s.traders)) [
        | inl e ↦ rw (same, with_trader_and_positions) (rw e (refl, found, rw (same, e) refl))
        | inr (t, e) ↦
            rw (same, with_trader_and_positions)
              (rw e
                (refl, found, rw lookup-insert (ground (arith, eq_iff p.trader_id p.trader_id))))
      ]

  not_there :
      (now : ℕ) (id : String) (pnl : F) (s : Store F)
      → get_position id s ≡ none
      → closed_with now pnl id (Positions.close_position now id pnl s)
        ≡ (err (not_found "position not found"), s)
  not_there now id pnl s e = rw (close_position_refused now id pnl s (rw e refl), e) (rw e refl)

  closed_before :
      (now : ℕ) (id : String) (pnl : F) (s : Store F) (p : Position F)
      → get_position id s ≡ some p
      → is_some p.closed_at ≡ true
      → closed_with now pnl id (Positions.close_position now id pnl s)
        ≡ (err (bad_request "position already closed" []), s)
  closed_before now id pnl s p e shut =
      rw (close_position_refused now id pnl s (rw e (rw shut refl)), e) (rw e (rw shut refl))

  now_closed :
      (now : ℕ) (id : String) (pnl : F) (s : Store F) (p : Position F)
      → get_position id s ≡ some p
      → is_some p.closed_at ≡ false
      → HasClosed now id pnl s p (closed_with now pnl id (Positions.close_position now id pnl s))
  unfolding Positions.close_position
  now_closed now id pnl s p e still =
      let (q, d, found) = close_position_open now id pnl s p e still in
      let s' = (Positions.close_position now id pnl s).2 in
      rw (q, d) (settle-HasClosed now id pnl s s' p found refl)

  -- With a finite profit, closing is refused without a change if the position is unknown, another
  -- user's or closed before. If not, it closes the position and enters the profit in the metrics of
  -- its trader.
  pub close_lem :
      (now : ℕ) (user_id id : String) (pnl : F) (s : Store F)
      → f.is_nan pnl ≡ false
      → f.is_inf pnl ≡ false
      → Expected now user_id id pnl s (get_position id s) (close_position now user_id id pnl s)
  unfolding close_position
  close_lem now user_id id pnl s a b = elim (Option-cases (get_position id s)) [
    | inl e ↦ rw (a, b) (rw e (not_there now id pnl s e))
    | inr (p, e) ↦
        rw (a, b)
          (rw e (
            λ no_access. rw no_access refl,
            λ access shut. rw access (closed_before now id pnl s p e shut),
            λ access still. rw access (now_closed now id pnl s p e still),
          ))
  ]
