-- ===== src/Trader/Drawdown.antt =====
-- internal/trader/engine/engine.go: the positions that a cycle closes for the guard against a drawdown,
-- of which internal/trader/engine/risk.go names the symbols.
pub mod Orders
use fxcore.Prelude.{
  ℕ, ◌+◌, Bool, true, false, ◌&&◌, not, Option, none, some, String, str_eq, List, [], ◌∷◌, ◌++◌,
  if◌then◌else◌, select, length, ltb, map,
}
use fxcore.Prelude.Int.{ℤ, pos}
use fxcore.Prelude.Float.{Float64}
use fxcore.Prelude.Text.{codes}
use fxcore.Model.Chat.{Reply, content, failed}
use fxcore.Model.Trader.{Trader}
use fxcore.Model.Decision.{
  DecisionAction, OrderParams, OrderResult, ExchangePosition, DecisionRecord, EquitySnapshot,
}
use fxcore.Model.Strategy.{StrategyConfig}
use fxcore.Kernel.Parse.{Json, ParseError, Parsed, ok, err, parse_decision, safe_wait}
use fxcore.Kernel.Indicators.{Run, ◌>>=◌, Math}
use fxcore.Kernel.Context.{Kline, Line, build_kline_context}
use fxcore.Store.{Store}
use fxcore.Store.Decisions.{add_decision, add_equity_snapshot, list_equity_by_trader}
use fxcore.Trader.Risk.{max_drawdown_guard}
use fxcore.Trader.Execute.{Moment, close_position, reset_daily_pnl, act_on, zero_f}
use fxcore.Trader.Config.{strategy_config, candidate_symbols, timeframes, count_of}

module _ {F : Type 0} where
  -- The positions that the two loops of the guard close, in order.
  abbrev pub in_symbol : String → List (ExchangePosition F) → List (ExchangePosition F)
  in_symbol sym positions = select (λ p. str_eq p.symbol sym) positions

  unfoldable pub guard_closes : List String → List (ExchangePosition F) → List (ExchangePosition F)
  guard_closes [] positions = []
  guard_closes (sym ∷ victims) positions = in_symbol sym positions ++ guard_closes victims positions

module _ {F : Type 0} ⦃f : Float64 F⦄ where
  abbrev pub guard_params : ExchangePosition F → OrderParams F
  guard_params p = record {
    symbol = p.symbol;
    side = "";
    position_side = "";
    quantity = p.quantity;
    price = zero_f;
    stop_loss = zero_f;
    take_profit = zero_f;
    leverage = pos 0;
    reduce_only = true;
    client_order_id = "";
  }

  abbrev pub guard_submit : Moment F → ExchangePosition F → Option (OrderResult F)
  guard_submit m p =
      if str_eq p.side "long"
      then m.adapter.close_long (guard_params p)
      else m.adapter.close_short (guard_params p)

  abbrev pub guard_settle :
      Moment F → String → ExchangePosition F → Option (OrderResult F) → Store F → Store F
  guard_settle m trader_id p none s = s
  guard_settle m trader_id p (some r) s = close_position m.now trader_id p.symbol r.avg_fill_price s

  unfoldable pub close_all :
      (ℕ → Moment F) → ℕ → String → List (ExchangePosition F) → Store F → Store F
  close_all moments i trader_id [] s = s
  close_all moments i trader_id (p ∷ ps) s =
      close_all moments (i + 1) trader_id ps
        (guard_settle (moments i) trader_id p (guard_submit (moments i) p) s)

  abbrev pub guard_victims : String → List (ExchangePosition F) → F → Store F → List String
  guard_victims trader_id positions balance s =
      max_drawdown_guard
        (map (λ (e : EquitySnapshot F). e.total_equity) (list_equity_by_trader trader_id "" s))
        positions balance
