-- ===== src/Backtest/Loop/Steady.antt =====
-- What the symbols of a cycle leave alone in a run.
use fxcore.Prelude.{
  ℕ, ◌≡◌, refl, ◌∙◌, ◌||◌, Option, none, some, String, str_eq, List, [], ◌∷◌, arith, Bool-cases,
  inl, inr,
}
use fxcore.Prelude.Dict.{lookup}
use fxcore.Prelude.Float.{Float64}
use fxcore.Model.Decision.{DecisionAction}
use fxcore.Backtest.{BtPosition, Run, BacktestTrade}
use fxcore.Backtest.Account.{
  Kline, Scene, open_position, close_position, act, acted, execute_actions,
}
use fxcore.Backtest.Replaying.{Replay}
use fxcore.Backtest.Loop.{Beat, pick_model, decided, on_symbol, on_symbols}

module _ {F : Type 0} where
  -- Configuration, state and cycle are as before.
  abbrev pub SteadyRun : Run F → Run F → Type 0
  SteadyRun r r' = (r'.cfg ≡ r.cfg) × (r'.state ≡ r.state) × (r'.cycle ≡ r.cycle)

  abbrev pub Steady : Replay F → Replay F → Type 0
  Steady s s' = SteadyRun s.run s'.run × (s'.window_start ≡ s.window_start) × (s'.over ≡ s.over)

  SteadyRun-trans : (q r t : Run F) → SteadyRun q r → SteadyRun r t → SteadyRun q t
  SteadyRun-trans q r t (a, b, c) (d, e, g) = (d ∙ a, e ∙ b, g ∙ c)

  Steady-trans : (q r t : Replay F) → Steady q r → Steady r t → Steady q t
  Steady-trans q r t (x, w, o) (y, v, p) = (SteadyRun-trans q.run r.run t.run x y, v ∙ w, p ∙ o)

module _ {F : Type 0} ⦃f : Float64 F⦄ where
  acted-Steady :
      (c : Scene F) (a : DecisionAction F) (o : Option (BtPosition F)) (r : Run F)
      (ts : List (BacktestTrade F))
      → SteadyRun r (acted c a o (r, ts)).0
  unfolding open_position close_position
  acted-Steady c a none r ts = ground arith
  acted-Steady c a (some p) r ts = ground arith

  act-Steady :
      (c : Scene F) (a : DecisionAction F) (r : Run F) (ts : List (BacktestTrade F))
      → SteadyRun r (act c a (r, ts)).0
  act-Steady c a r ts = elim (Bool-cases (str_eq a.symbol "" || str_eq a.symbol c.symbol)) [
    | inl e ↦ rw e (acted-Steady c a (lookup c.symbol r.positions) r ts)
    | inr e ↦ rw e (refl, refl, refl)
  ]

  execute_actions-Steady :
      (c : Scene F) (acts : List (DecisionAction F)) (r : Run F) (ts : List (BacktestTrade F))
      → SteadyRun r (execute_actions c acts (r, ts)).0
  unfolding execute_actions
  execute_actions-Steady c [] r ts = (refl, refl, refl)
  execute_actions-Steady c (a ∷ acts) r ts =
      let (r1, ts1) = act c a (r, ts) in
      SteadyRun-trans r r1 (execute_actions c acts (r1, ts1)).0 (act-Steady c a r ts)
        (execute_actions-Steady c acts r1 ts1)

  module _ {M : Type 0} where
    decided-Steady :
        (b : Beat F M) (run_id : String) (cycle : ℕ) (symbol : String) (ks : List (Kline F))
        (m : Option M) (s : Replay F)
        → Steady s (decided b run_id cycle symbol ks m s)
    decided-Steady b run_id cycle symbol ks none s = ((refl, refl, refl), refl, refl)
    decided-Steady b run_id cycle symbol ks (some m) s =
        (execute_actions-Steady _ _ s.run s.trades, refl, refl)

    on_symbol-Steady :
        (b : Beat F M) (run_id : String) (cycle : ℕ) (symbol : String)
        (ks : Option (List (Kline F))) (failure : String) (s : Replay F)
        → Steady s (on_symbol b run_id cycle symbol ks failure s)
    on_symbol-Steady b run_id cycle symbol none failure s = ((refl, refl, refl), refl, refl)
    on_symbol-Steady b run_id cycle symbol (some ks) failure s =
        decided-Steady b run_id cycle symbol ks (pick_model b.get_model b.models) s

    pub on_symbols-Steady :
        (b : Beat F M) (run_id : String) (cycle : ℕ) (symbols : List String) (s : Replay F)
        → Steady s (on_symbols b run_id cycle symbols s)
    unfolding on_symbols
    on_symbols-Steady b run_id cycle [] s = ((refl, refl, refl), refl, refl)
    on_symbols-Steady b run_id cycle (symbol ∷ symbols) s =
        let s1 = on_symbol b run_id cycle symbol (b.klines symbol) (b.failure symbol) s in
        Steady-trans s s1 (on_symbols b run_id cycle symbols s1)
          (on_symbol-Steady b run_id cycle symbol (b.klines symbol) (b.failure symbol) s)
          (on_symbols-Steady b run_id cycle symbols s1)
