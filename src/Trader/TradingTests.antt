-- ===== src/Trader/TradingTests.antt =====
-- Decisions that are filtered and carried out, fills that are entered twice, and the theorems about
-- them at concrete inputs.
use fxcore.Prelude.{
  ℕ, ◌≤◌, ◌≡◌, refl, false, true, none, some, String, eq_iff, List, [], ◌∷◌, All, arith,
}
use fxcore.Prelude.Int.{pos, ◌*ℤ◌, ◌+ℤ◌, quot}
use fxcore.Prelude.Float.{Fixed, fixed_float}
use fxcore.Model.Trader.{Trader, Status}
use fxcore.Model.Decision.{DecisionAction, RiskControl, OrderResult}
use fxcore.Model.Order.{ExchangeFill}
use fxcore.Store.Tests.{two_traders, trader}
use fxcore.Trader.Risk
use fxcore.Trader.Risk.Bounds.{IsWithin, filter_by_risk-IsWithin}
use fxcore.Trader.Execute
use fxcore.Trader.Sync
use fxcore.Trader.Sync.Once.{sync_twice}
use fxcore.Trader.Sync.Single.{held_in, one_for_symbol}

abbrev scheduled_trader : Trader Fixed
scheduled_trader = record (trader "t1" "u1" Status.running) {
  schedule = some (record { interval = pos 30; active_hours = [] });
}

-- Opening for 100 units of money, at a leverage of 20.
abbrev action : String → String → DecisionAction Fixed
action kind symbol = record {
  action = kind;
  symbol = symbol;
  quantity = pos 10_000;
  leverage = pos 200_000;
  price = pos 1_000_000;
  stop_loss = pos 0;
  take_profit = pos 0;
  confidence = pos 0;
  reasoning = "";
  order_id = "";
  success = none;
  error = "";
}

abbrev decision : List (DecisionAction Fixed)
decision = action "open_long" "btc-usdt" ∷ action "close_long" "ETH-USDT" ∷ []

-- At most three positions, a leverage of 5, and half of the balance as margin.
abbrev limits : RiskControl Fixed
limits = record {
  max_positions = pos 3;
  btc_eth_max_leverage = pos 5;
  altcoin_max_leverage = pos 5;
  btc_eth_max_position_value_ratio = pos 50_000;
  altcoin_max_position_value_ratio = pos 10_000;
  max_margin_usage = pos 100;
  min_position_size = pos 0;
  min_risk_reward_ratio = pos 0;
  min_confidence = pos 0;
}

is_btc_eth_test : (Risk.is_btc_eth "btc-usdt" ≡ true) × (Risk.is_btc_eth "BNB-USDT" ≡ false)
unfolding Risk.is_btc_eth
is_btc_eth_test = (refl, refl)

limits_kept :
    (symbol : String)
    → fixed_float.to_int (fixed_float.of_int (Risk.max_leverage_of limits symbol))
      ≡ Risk.max_leverage_of limits symbol
unfolding ◌*ℤ◌ quot
limits_kept symbol = ground arith

filter_by_risk-IsWithin_example :
    All (IsWithin limits (pos 10_000_000)) (Risk.filter_by_risk limits (pos 10_000_000) 1 decision)
filter_by_risk-IsWithin_example =
    filter_by_risk-IsWithin limits (pos 10_000_000) 1 decision limits_kept

-- The margin is checked at the leverage that the action asks for: at the one that it is cut to, the
-- action that gets through would need more than the limit.
margin_test :
    (Risk.filter_by_risk limits (pos 10_000_000) 0 (action "open_long" "btc-usdt" ∷ [])
      ≡ record (action "open_long" "btc-usdt") { leverage = pos 50_000 } ∷ [])
    × (Risk.too_much_margin limits
          (pos 10_000_000)
          (record (action "open_long" "btc-usdt") { leverage = pos 50_000 })
        ≡ true)
unfolding Risk.filter_by_risk Risk.is_btc_eth Risk.compute_position_value Risk.margin_needed
    Risk.margin_rate ◌*ℤ◌ ◌+ℤ◌ quot
margin_test = (refl, refl)

abbrev result : OrderResult Fixed
result = record {
  exchange_order_id = "x1";
  client_order_id = "";
  status = "FILLED";
  filled_quantity = pos 10_000;
  avg_fill_price = pos 1_000_000;
  fee = pos 0;
  fee_asset = "";
}

abbrev moments : ℕ → Execute.Moment Fixed
moments i = record {
  cancelled = false;
  now = i;
  client_order_id = "c";
  position_id = "p3";
  order_id = "o1";
  adapter = record {
    open_long = λ p. some result;
    open_short = λ p. none;
    close_long = λ p. some result;
    close_short = λ p. none;
  };
}

abbrev fill : String → ExchangeFill Fixed
fill side = record {
  exchange_order_id = "x1";
  exchange_trade_id = "f1";
  symbol = "SOL-USDT";
  side = side;
  price = pos 1_000_000;
  quantity = pos 10_000;
  commission = pos 0;
  commission_asset = "";
  realized_pnl = pos 0;
  is_maker = false;
  timestamp_ms = 0;
}

abbrev draws : ℕ → Sync.Draw
draws i = record { now = i; fill_id = "f"; order_id = "o"; position_id = "p9" }

sync_twice_example :
    Sync.sync draws "t1" (fill "buy" ∷ []) (Sync.sync draws "t1" (fill "buy" ∷ []) two_traders)
    ≡ Sync.sync draws "t1" (fill "buy" ∷ []) two_traders
sync_twice_example =
    sync_twice draws draws "t1" (fill "buy" ∷ []) two_traders (ground (arith, eq_iff "f1" ""), tt)

one_for_symbol_example :
    held_in "t1" "SOL-USDT" (Sync.sync draws "t1" (fill "buy" ∷ fill "sell" ∷ []) two_traders) ≤ 1
one_for_symbol_example =
    one_for_symbol "t1" "SOL-USDT" draws "t1" (fill "buy" ∷ fill "sell" ∷ []) two_traders
      (omega arith)

-- A buy in a symbol that the trader does not hold enters a short position.
backfill_test : (Sync.backfill "t1" (fill "buy")).side ≡ "short"
backfill_test = refl
