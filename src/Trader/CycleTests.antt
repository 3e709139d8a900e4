-- ===== src/Trader/CycleTests.antt =====
-- Cycles of a trader, with an answer that opens a position, and the theorems about them at concrete
-- inputs.
use fxcore.Prelude.{
  ℕ, ◌+◌, ◌-◌, ◌*◌, ◌≤◌, ◌≡◌, ◌≢◌, refl, false, true, none, some, String, List, [], ◌∷◌, length,
}
use mathlib.Core.Option.{map as map_option}
use fxcore.Prelude.Dict.{lookup, insert}
use fxcore.Prelude.Int.{pos, ltb_ℤ, ◌*ℤ◌, ◌-ℤ◌, ◌+ℤ◌, quot}
use fxcore.Prelude.Float.{Fixed, fixed_float}
use fxcore.Prelude.Text.{index, trim_left}
use fxcore.Model.Chat.{content}
use fxcore.Model.Trader.{Trader, Status}
use fxcore.Model.Decision.{DecisionAction, OrderResult, ExchangePosition}
use fxcore.Model.Strategy.{KlineConfig}
use fxcore.Kernel.Parse
use fxcore.Kernel.Indicators.{Math}
use fxcore.Kernel.Context.Shown.{HasPeriods}
use fxcore.Store.{Store}
use fxcore.Store.Tests.{two_traders, trader}
use fxcore.Store.Traders
use fxcore.Store.Positions
use fxcore.Store.Orders
use fxcore.Store.Strategies
use fxcore.Store.Decisions
use fxcore.Trader.Risk
use fxcore.Trader.Execute
use fxcore.Trader.Execute.{Moment}
use fxcore.Trader.Execute.Bounded.{open_count}
use fxcore.Trader.Config
use fxcore.Trader.Config.{mem, primary_of, timeframes}
use fxcore.Trader.Config.Taken.{strategy_config_lem}
use fxcore.Trader.Cycle
use fxcore.Trader.Decide
use fxcore.Trader.Drawdown
use fxcore.Trader.Decide.{Setting}
use fxcore.Trader.Drawdown.{guard_closes}
use fxcore.Trader.Cycle.{run_cycle}
use fxcore.Trader.Drawdown.Orders.{count_in, guard_square}
use fxcore.Trader.Cycle.Outcome.{Outcome, run_cycle-Outcome}
use fxcore.Trader.Cycle.Ends.{limit, cycle_bounded, cycle_ends}

-- On ten-thousandths a root and a sign suffice that no indicator here calls for.
instance abbrev plain_math : Math Fixed
plain_math = record { sqrt = λ a. a; abs = λ a. a; max = λ a b. a }

abbrev buy : DecisionAction Fixed
buy = record {
  action = "open_long";
  symbol = "SOL-USDT";
  quantity = pos 10_000;
  leverage = pos 20_000;
  price = pos 200_000;
  stop_loss = pos 0;
  take_profit = pos 0;
  confidence = pos 0;
  reasoning = "";
  order_id = "";
  success = none;
  error = "";
}

abbrev filled : OrderResult Fixed
filled = record {
  exchange_order_id = "x1";
  client_order_id = "";
  status = "FILLED";
  filled_quantity = pos 10_000;
  avg_fill_price = pos 200_000;
  fee = pos 0;
  fee_asset = "";
}

abbrev moment : ℕ → Moment Fixed
moment i = record {
  cancelled = false;
  now = i;
  client_order_id = "c";
  position_id = "p9";
  order_id = "o9";
  adapter = record {
    open_long = λ p. some filled;
    open_short = λ p. none;
    close_long = λ p. some filled;
    close_short = λ p. none;
  };
}

-- An account with 1,000 units of money and no positions, no candles, and a model that says to buy.
abbrev setting : Setting Fixed String String
setting = record {
  creds = some (λ exchange user. some user);
  new_adapter = λ c. some (record { balance = some (pos 10_000_000); positions = some [] });
  get_model = λ id. some id;
  chat = λ m system input. content "<decision>x</decision>" (pos 7);
  klines = none;
  decode_config = λ s. none;
  json = record { array = λ t. some (buy ∷ []); object = λ t. none };
  to_json = λ acts. "[]";
  system_prompt = λ cfg. "";
  user_context = λ balance positions shown. "";
  error_text = λ x. "";
  now = 5;
  snapshot_id = "e1";
  decision_id = "d1";
  guard_moments = moment;
  moments = moment;
}

abbrev t1 : Trader Fixed
t1 = trader "t1" "u1" Status.running

setting-HasPeriods :
    HasPeriods (Config.strategy_config setting.decode_config t1 two_traders).indicators
unfolding Config.strategy_config Strategies.get_strategy lookup
setting-HasPeriods = (tt, tt, tt, tt)

cycle_ends_example : (s' : Store Fixed) × (run_cycle setting t1 two_traders ≡ some s')
cycle_ends_example = cycle_ends setting t1 two_traders setting-HasPeriods

-- The end of the cycle.
abbrev after : Store Fixed
after = (cycle_ends setting t1 two_traders setting-HasPeriods).0

ends_test : run_cycle setting t1 two_traders ≡ some after
ends_test = (cycle_ends setting t1 two_traders setting-HasPeriods).1

run_cycle-Outcome_example : Outcome setting t1 two_traders after
run_cycle-Outcome_example = run_cycle-Outcome setting t1 two_traders after ends_test

cycle_bounded_example :
    open_count "t1" after
    ≤ open_count "t1" two_traders + (limit setting t1 two_traders - open_count "t1" two_traders)
cycle_bounded_example = cycle_bounded setting t1 two_traders after ends_test

strategy_config_lem_example :
    let cfg = Config.strategy_config setting.decode_config t1 two_traders in
    (ltb_ℤ (pos 0) cfg.risk_control.max_positions ≡ true)
    × (cfg.prompt_variant ≡ "")
    × (cfg.language ≡ "zh")
strategy_config_lem_example = strategy_config_lem setting.decode_config t1 two_traders

abbrev frames : KlineConfig
frames = record {
  primary_timeframe = "15m";
  primary_count = pos 200;
  longer_timeframe = "";
  longer_count = pos 0;
  enable_multi_timeframe = true;
  selected_timeframes = "1h" ∷ "" ∷ "15m" ∷ "4h" ∷ "1h" ∷ [];
}

timeframes_test : timeframes frames ≡ "15m" ∷ "1h" ∷ "4h" ∷ []
unfolding timeframes Config.extended
timeframes_test = refl

abbrev held : String → ExchangePosition Fixed
held side = record {
  symbol = "BTC-USDT";
  side = side;
  quantity = pos 10_000;
  entry_price = pos 0;
  mark_price = pos 0;
  unrealized_pnl = pos 0;
  leverage = pos 1;
}

abbrev both_sides : List (ExchangePosition Fixed)
both_sides = held "long" ∷ held "short" ∷ []

-- The account grew from 100 to 1,000 and fell back to 500.
abbrev equities : List Fixed
equities = pos 1_000_000 ∷ pos 10_000_000 ∷ pos 5_000_000 ∷ []

triggered : Risk.max_drawdown_guard equities both_sides (pos 5_000_000) ≢ []
unfolding Risk.max_drawdown_guard ◌*ℤ◌ ◌-ℤ◌ quot
triggered h = cc

guard_square_example :
    count_in "BTC-USDT"
      (guard_closes (Risk.max_drawdown_guard equities both_sides (pos 5_000_000)) both_sides)
    ≡ count_in "BTC-USDT" both_sides * count_in "BTC-USDT" both_sides
guard_square_example = guard_square equities both_sides (pos 5_000_000) "BTC-USDT" triggered

-- The answer opens one more position, with an order, and is recorded.
cycle_test :
    map_option {B = ℕ × ℕ × ℕ × ℕ}
      (λ (s : Store Fixed).
        (open_count "t1" s, length s.orders, length s.decisions, length s.equities))
      (run_cycle setting t1 two_traders)
    ≡ some (open_count "t1" two_traders + 1, 1, 1, 1)
unfolding run_cycle Cycle.with_account Cycle.snapshot_equity Decide.decide Decide.answered
    Drawdown.close_all Execute.reset_daily_pnl Execute.act_on Execute.execute Risk.filter_by_risk
    Risk.max_drawdown_guard Risk.is_btc_eth Risk.compute_position_value Traders.with_trader
    Positions.add_position Positions.list_positions_by_trader Orders.add_order
    Decisions.add_decision Decisions.add_equity_snapshot Decisions.list_equity_by_trader
    Decisions.listed_from Config.strategy_config Config.candidate_symbols Strategies.get_strategy
    Parse.parse_decision Parse.extract_decision_body index Parse.parse_body Parse.decode
    Parse.half_width Parse.check_actions Parse.is_blank trim_left lookup insert ◌*ℤ◌ ◌-ℤ◌ ◌+ℤ◌ quot
    Positions.owner_of
cycle_test = refl
