-- ===== src/Backtest/Account/Symbols.antt =====
-- What the actions on one symbol leave alone, and what a liquidation leaves.
use fxcore.Prelude.{
  ℕ, ◌+◌, ◌≡◌, ◌≢◌, refl, ◌∙◌, inl, inr, true, false, ◌&&◌, ◌||◌, String, str_eq, eq_iff, Option,
  none, some, List, [], ◌∷◌, arith, length, length-append, Bool-cases, Option-cases,
}
use fxcore.Prelude.Dict.{Dict, lookup}
use fxcore.Prelude.Dict.Laws.{lookup-insert, lookup-erase}
use fxcore.Prelude.Float.{Float64}
use fxcore.Model.Decision.{DecisionAction, is_opening, is_closing}
use fxcore.Backtest.{BtPosition, Run, BacktestTrade}
use fxcore.Backtest.Account.{
  Scene, fill_price, quantity_of, open_position, close_position, side_matches, concerns, acted, act,
  execute_actions, liquidate_from, liquidate_all,
}

module _ {F : Type 0} ⦃f : Float64 F⦄ where
  abbrev held : String → Run F × List (BacktestTrade F) → Option (BtPosition F)
  held j x = lookup j x.0.positions

  open-others :
      (c : Scene F) (a : DecisionAction F) (x : Run F × List (BacktestTrade F)) (j : String)
      → j ≢ c.symbol
      → held j (open_position c a x) ≡ held j x
  unfolding open_position
  open-others c a (r, ts) j ne =
      elim (Bool-cases (
        f.le (fill_price c.klines r.cfg.fill_policy true) (f.dec 0 0)
        || f.lt r.available (f.mul (quantity_of a) (fill_price c.klines r.cfg.fill_policy true)))) [
          | inl e ↦ rw e refl
          | inr e ↦ rw e (rw lookup-insert (ground (arith, eq_iff c.symbol j)))
        ]

  close-others :
      (c : Scene F) (a : DecisionAction F) (p : BtPosition F) (x : Run F × List (BacktestTrade F))
      (j : String)
      → j ≢ c.symbol
      → held j (close_position c a p x) ≡ held j x
  unfolding close_position
  close-others c a p (r, ts) j ne =
      elim (Bool-cases (f.le (fill_price c.klines r.cfg.fill_policy false) (f.dec 0 0))) [
        | inl e ↦ rw e refl
        | inr e ↦ rw e (rw lookup-erase (ground (arith, eq_iff c.symbol j)))
      ]

  acted-others :
      (c : Scene F) (a : DecisionAction F) (o : Option (BtPosition F))
      (x : Run F × List (BacktestTrade F)) (j : String)
      → j ≢ c.symbol
      → held j (acted c a o x) ≡ held j x
  acted-others c a none x j ne = elim (Bool-cases (is_opening a.action)) [
    | inl e ↦ rw e (open-others c a x j ne)
    | inr e ↦ rw e refl
  ]
  acted-others c a (some p) x j ne =
      elim (Bool-cases (is_closing a.action && side_matches p.side a.action)) [
        | inl e ↦ rw e (close-others c a p x j ne)
        | inr e ↦ rw e refl
      ]

  act-others :
      (c : Scene F) (a : DecisionAction F) (x : Run F × List (BacktestTrade F)) (j : String)
      → j ≢ c.symbol
      → held j (act c a x) ≡ held j x
  act-others c a (r, ts) j ne = elim (Bool-cases (concerns c a)) [
    | inl e ↦ rw e (acted-others c a (lookup c.symbol r.positions) (r, ts) j ne)
    | inr e ↦ rw e refl
  ]

  -- Carrying out a decision for one symbol leaves the positions in every other symbol alone.
  pub execute_actions-others :
      (c : Scene F) (acts : List (DecisionAction F)) (x : Run F × List (BacktestTrade F))
      (j : String)
      → j ≢ c.symbol
      → held j (execute_actions c acts x) ≡ held j x
  unfolding execute_actions
  execute_actions-others c [] x j ne = refl
  execute_actions-others c (a ∷ acts) x j ne =
      execute_actions-others c acts (act c a x) j ne ∙ act-others c a x j ne

  -- What is left under a key once the positions `ps` are gone.
  abbrev left : Option (BtPosition F) → Option (BtPosition F) → Option (BtPosition F)
  left none o = o
  left (some p) o = none

  liquidate-lookup :
      (run_id : String) (now cycle : ℕ) (reason : String) (ps : Dict (BtPosition F))
      (x : Run F × List (BacktestTrade F)) (j : String)
      → held j (liquidate_from run_id now cycle reason ps x) ≡ left (lookup j ps) (held j x)
  unfolding liquidate_from lookup
  liquidate-lookup run_id now cycle reason [] x j = refl
  liquidate-lookup run_id now cycle reason ((k, p) ∷ ps) (r, ts) j =
      rw (liquidate-lookup run_id now cycle reason ps, lookup-erase)
        (elim (Bool-cases (str_eq k j)) [
          | inl e ↦
              rw e
                (elim (Option-cases (lookup j ps)) [ inl q ↦ rw q refl | inr (v, q) ↦ rw q refl ])
          | inr e ↦ rw e refl
        ])

  liquidate-trades :
      (run_id : String) (now cycle : ℕ) (reason : String) (ps : Dict (BtPosition F))
      (x : Run F × List (BacktestTrade F))
      → length (liquidate_from run_id now cycle reason ps x).1 ≡ length x.1 + length ps
  unfolding liquidate_from
  liquidate-trades run_id now cycle reason [] x = omega arith
  liquidate-trades run_id now cycle reason ((k, p) ∷ ps) (r, ts) =
      rw (liquidate-trades run_id now cycle reason ps, length-append) (omega arith)

  -- A liquidation marks the run, leaves no position, and enters one trade for each that was held.
  pub liquidate_all_lem :
      (run_id : String) (now cycle : ℕ) (reason : String) (x : Run F × List (BacktestTrade F))
      → let (r, ts) = liquidate_all run_id now cycle reason x in
        (r.liquidated ≡ true)
        × ((symbol : String) → lookup symbol r.positions ≡ none)
        × (length ts ≡ length x.1 + length x.0.positions)
  unfolding liquidate_all
  liquidate_all_lem run_id now cycle reason (r, ts) = (
    refl,
    λ j. liquidate-lookup run_id now cycle reason r.positions (r, ts) j ∙ gone j,
    liquidate-trades run_id now cycle reason r.positions (r, ts),
  )
    where
      gone : (j : String) → left (lookup j r.positions) (lookup j r.positions) ≡ none
      gone j = elim (Option-cases (lookup j r.positions)) [
        | inl q ↦ rw q refl
        | inr (v, q) ↦ rw q refl
      ]
