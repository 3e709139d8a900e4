-- ===== src/Trader/Cycle/Ends.antt =====
-- A cycle comes to its end, and the number of positions that are open then.
use fxcore.Prelude.{
  ℕ, ◌+◌, ◌-◌, ◌≤◌, ◌≡◌, refl, sym, Bool, Option, none, some, String, List, [], ◌∷◌, arith, length,
  Option-cases, inl, inr,
}
use fxcore.Prelude.Int.{ℤ}
use fxcore.Prelude.Float.{Float64}
use fxcore.Model.Trader.{Trader}
use fxcore.Model.Decision.{ExchangePosition}
use fxcore.Model.Strategy.{StrategyConfig}
use fxcore.Kernel.Indicators.{Math}
use fxcore.Kernel.Context.{Kline}
use fxcore.Kernel.Context.Quiet.{Returns}
use fxcore.Kernel.Context.Shown.{HasPeriods, context_lem}
use fxcore.Store.{Store}
use fxcore.Store.Decisions.{add_equity_snapshot}
use fxcore.Trader.Risk.{max_positions_of}
use fxcore.Trader.Execute.{reset_daily_pnl}
use fxcore.Trader.Execute.Bounded.{open_count, act_on-bounded}
use fxcore.Trader.Config.{strategy_config, candidate_symbols}
use fxcore.Trader.Decide.{Setting, market, market_from, decide}
use fxcore.Trader.Cycle.{guarded, with_account, reached, snapshot_equity, adapter_for, run_cycle}
use fxcore.Trader.Drawdown.{guard_victims}
use fxcore.Trader.Cycle.Kept.{reset-Kept}
use fxcore.Trader.Cycle.Outcome.{
  Outcome, quiet, closing, refused, acting, run_cycle-Outcome, open_count-same,
  strategy_config-same,
}

module _ {F C M : Type 0} ⦃f : Float64 F⦄ (e : Setting F C M) (t : Trader F) where
  -- The limit on positions that is in force.
  abbrev pub limit : Store F → ℕ
  limit s = max_positions_of (strategy_config e.decode_config t s).risk_control

  Outcome-bounded :
      (s s' : Store F)
      → Outcome e t s s'
      → open_count t.id s' ≤ open_count t.id s + (limit s - open_count t.id s)
  Outcome-bounded s s' (quiet u k) = omega (arith, open_count-same e t s s' u.0)
  Outcome-bounded s s' (closing k o n) = omega (arith, n)
  Outcome-bounded s s' (refused d u k i b w) = omega (arith, open_count-same e t s s' u.0)
  Outcome-bounded s s' (acting d s1 balance u k i g p eq) =
      let rc = (strategy_config e.decode_config t s).risk_control in
      rw eq (
        rw (sym (open_count-same e t s s1 u.0))
          (act_on-bounded e.moments t.id rc balance d.decisions s1))

  module _ ⦃fm : Math F⦄ where
    -- However a cycle ends, the trader has at most as many open positions as its strategy allows, or
    -- as it had if they were more.
    pub cycle_bounded :
        (s s' : Store F)
        → run_cycle e t s ≡ some s'
        → open_count t.id s' ≤ open_count t.id s + (limit s - open_count t.id s)
    cycle_bounded s s' h = Outcome-bounded s s' (run_cycle-Outcome e t s s' h)

    market_from-Returns :
        (fetch : String → Option (List (Kline F))) (cfg : StrategyConfig F) (several : Bool)
        (tfs : List String)
        → HasPeriods cfg.indicators
        → Returns (market_from fetch cfg several tfs)
    unfolding market_from
    market_from-Returns fetch cfg several [] h = ([], refl)
    market_from-Returns fetch cfg several (tf ∷ tfs) h =
        let (r, p) = market_from-Returns fetch cfg several tfs h in
        elim (Option-cases (fetch tf)) [
          | inl q ↦ rw q (r, p)
          | inr ([], q) ↦ rw q (r, p)
          | inr (k ∷ ks, q) ↦
              let (ls, b, _) = context_lem (k ∷ ks) cfg.indicators h in rw (q, b, p) (_, refl)
        ]

    market-Returns :
        (klines : Option (String → String → ℤ → Option (List (Kline F)))) (cfg : StrategyConfig F)
        (symbols : List String)
        → HasPeriods cfg.indicators
        → Returns (market klines cfg symbols)
    market-Returns none cfg symbols h = ([], refl)
    market-Returns (some klines) cfg [] h = ([], refl)
    market-Returns (some klines) cfg (x ∷ xs) h = market_from-Returns _ cfg _ _ h

    guarded-Returns :
        (s1 : Store F) (balance : F) (positions : List (ExchangePosition F)) (victims : List String)
        → HasPeriods (strategy_config e.decode_config t s1).indicators
        → Returns (guarded e t balance positions victims s1)
    unfolding decide
    guarded-Returns s1 balance positions (v ∷ victims) h = (_, refl)
    guarded-Returns s1 balance positions [] h =
        let (shown, q) =
          market-Returns e.klines (strategy_config e.decode_config t s1)
            (candidate_symbols e.decode_config t s1) h in
        elim (Option-cases (e.get_model t.model_config.model_id)) [
          | inl p ↦ rw p (_, refl)
          | inr (m, p) ↦ rw (p, q) (_, refl)
        ]

    with_account-Returns :
        (s1 : Store F) (balance : F) (positions : List (ExchangePosition F))
        → HasPeriods (strategy_config e.decode_config t s1).indicators
        → Returns (with_account e t balance positions s1)
    unfolding with_account snapshot_equity add_equity_snapshot
    with_account-Returns s1 balance positions h =
        let s2 = snapshot_equity e.now e.snapshot_id t.id balance (length positions) s1 in
        guarded-Returns s2 balance positions (guard_victims t.id positions balance s2)
          (rw (strategy_config-same e t s1 s2 refl) h)

    reached-Returns :
        (s1 : Store F) (balance : Option F) (positions : Option (List (ExchangePosition F)))
        → HasPeriods (strategy_config e.decode_config t s1).indicators
        → Returns (reached e t balance positions s1)
    reached-Returns s1 (some b) (some ps) h = with_account-Returns s1 b ps h
    reached-Returns s1 none ps h = (_, refl)
    reached-Returns s1 (some b) none h = (_, refl)

    -- With no period below 0 in the strategy, every cycle comes to its end.
    pub cycle_ends :
        (s : Store F)
        → HasPeriods (strategy_config e.decode_config t s).indicators
        → (s' : Store F) × (run_cycle e t s ≡ some s')
    unfolding run_cycle
    cycle_ends s h =
        let s0 = reset_daily_pnl e.now t.id s in
        let ((p, o, st), k) = reset-Kept e.now t.id s in
        elim (Option-cases (adapter_for e t)) [
          | inl q ↦ rw q (s0, refl)
          | inr (a, q) ↦
              rw q
                (reached-Returns s0 a.balance a.positions (rw (strategy_config-same e t s s0 st) h))
        ]
