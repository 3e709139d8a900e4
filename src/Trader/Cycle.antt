-- ===== src/Trader/Cycle.antt =====
-- internal/trader/engine/engine.go: one cycle of a trader, from the daily reset to the last action.
-- What the exchange, the model and the market answer, the decoders and printers of JSON, the texts of
-- the prompts, the clock and the new ids are arguments. The texts that go to the log are left out.
pub mod Kept
pub mod Outcome
pub mod Ends
use fxcore.Prelude.{
  ℕ, ◌+◌, Bool, true, false, ◌&&◌, not, Option, none, some, String, str_eq, List, [], ◌∷◌, ◌++◌,
  if◌then◌else◌, select, length, ltb, map,
}
use fxcore.Prelude.Int.{ℤ, pos}
use fxcore.Prelude.Float.{Float64}
use fxcore.Prelude.Text.{codes}
use fxcore.Model.Chat.{Reply, content, failed}
use fxcore.Model.Trader.{Trader}
use fxcore.Model.Decision.{
  DecisionAction, OrderParams, OrderResult, ExchangePosition, DecisionRecord, EquitySnapshot,
}
use fxcore.Model.Strategy.{StrategyConfig}
use fxcore.Kernel.Parse.{Json, ParseError, Parsed, ok, err, parse_decision, safe_wait}
use fxcore.Kernel.Indicators.{Run, ◌>>=◌, Math}
use fxcore.Kernel.Context.{Kline, Line, build_kline_context}
use fxcore.Store.{Store}
use fxcore.Store.Decisions.{add_decision, add_equity_snapshot, list_equity_by_trader}
use fxcore.Trader.Risk.{max_drawdown_guard}
use fxcore.Trader.Execute.{Moment, close_position, reset_daily_pnl, act_on, zero_f}
use fxcore.Trader.Config.{strategy_config, candidate_symbols, timeframes, count_of}
use fxcore.Trader.Drawdown.{
  in_symbol, guard_closes, guard_params, guard_submit, guard_settle, close_all, guard_victims,
}
use fxcore.Trader.Decide.{
  Account, Market, Setting, with_frame, market_from, market, draft, with_decisions, parsed,
  answered, entered, decide_with, decide,
}

module _ {F : Type 0} ⦃f : Float64 F⦄ where
  unfoldable pub snapshot_equity : ℕ → String → String → F → ℕ → Store F → Store F
  snapshot_equity now fresh trader_id balance pos_count s =
      add_equity_snapshot now fresh
        (record {
          id = "";
          trader_id = trader_id;
          timestamp = 0;
          total_equity = balance;
          balance = balance;
          unrealized_pnl = zero_f;
          position_count = pos_count;
          margin_used_pct = zero_f;
        })
        s

  module _ {C M : Type 0} where
    module _ ⦃fm : Math F⦄ where
      abbrev pub acted : Setting F C M → Trader F → F → List (DecisionAction F) × Store F → Store F
      acted e t balance (acts, s) =
          act_on e.moments t.id (strategy_config e.decode_config t s).risk_control balance acts s

      -- From the guard on.
      abbrev pub guarded :
          Setting F C M
          → Trader F
          → F
          → List (ExchangePosition F)
          → List String
          → Store F
          → Run (Store F)
      guarded e t balance positions (v ∷ victims) s =
          some (close_all e.guard_moments 0 t.id (guard_closes (v ∷ victims) positions) s)
      guarded e t balance positions [] s =
          decide e t balance positions (candidate_symbols e.decode_config t s) s >>= λ d.
          some (acted e t balance d)

      -- With the balance and the positions.
      unfoldable pub with_account :
          Setting F C M → Trader F → F → List (ExchangePosition F) → Store F → Run (Store F)
      with_account e t balance positions s =
          let s' = snapshot_equity e.now e.snapshot_id t.id balance (length positions) s in
          guarded e t balance positions (guard_victims t.id positions balance s') s'

      abbrev pub adapter_for : Setting F C M → Trader F → Option (Account F)
      adapter_for e t = elim e.creds [
        | none ↦ none
        | some resolve ↦ elim (resolve t.exchange t.user_id) [
          | none ↦ none
          | some c ↦ e.new_adapter c
        ]
      ]

      abbrev pub reached :
          Setting F C M
          → Trader F
          → Option F
          → Option (List (ExchangePosition F))
          → Store F
          → Run (Store F)
      reached e t (some balance) (some positions) s = with_account e t balance positions s
      reached e t none positions s = some s
      reached e t (some balance) none s = some s

      abbrev pub with_adapter :
          Setting F C M → Trader F → Option (Account F) → Store F → Run (Store F)
      with_adapter e t none s = some s
      with_adapter e t (some a) s = reached e t a.balance a.positions s

      -- The cycle of the trader that the loop read; `none` is a panic, which ends the process.
      unfoldable pub run_cycle : Setting F C M → Trader F → Store F → Run (Store F)
      run_cycle e t s = with_adapter e t (adapter_for e t) (reset_daily_pnl e.now t.id s)
