-- ===== src/Backtest/Account.antt =====
-- internal/backtest/replay.go: how a replay carries out the actions of a decision. A run and the
-- trades of the store are passed along; the clock is an argument.
pub mod Symbols
use fxcore.Prelude.{
  ℕ, Bool, true, false, ◌&&◌, ◌||◌, not, Option, none, some, String, str_eq, List, [], ◌∷◌, ◌++◌,
  if◌then◌else◌, reverse,
}
use fxcore.Prelude.Int.{ℤ, pos}
use fxcore.Prelude.Float.{Float64}
use fxcore.Prelude.Dict.{Dict, lookup, insert, erase}
use fxcore.Model.Decision.{
  DecisionAction, action_open_long, action_open_short, action_close_long, action_close_short,
  is_opening, is_closing,
}
use fxcore.Backtest.{Config, BtPosition, Run, BacktestTrade}

-- The fields of `dto.KlineDTO` that set a price.
pub record Kline (F : Type 0) : Type 0 where
  pub high : F
  pub low : F
  pub close : F

-- Where a decision is carried out: the run, the time, the symbol with its candles (oldest first), and
-- the cycle.
pub record Scene (F : Type 0) : Type 0 where
  pub run_id : String
  pub now : ℕ
  pub symbol : String
  pub klines : List (Kline F)
  pub cycle : ℕ

abbrev pub side_matches : String → String → Bool
side_matches side action =
    if str_eq side "long" then str_eq action action_close_long else str_eq action action_close_short

module _ {F : Type 0} ⦃f : Float64 F⦄ where
  abbrev nil : F
  nil = f.dec 0 0

  -- The price by the last candle and the one before it.
  abbrev price_by : String → Bool → Kline F → Option (Kline F) → F
  price_by policy opening last before =
      if str_eq policy "next_open"
      then elim before [ none ↦ last.close | some k ↦ if opening then k.close else last.close ]
      else (if str_eq policy "bar_vwap"
          then f.div (f.add (f.add last.high last.low) last.close) (f.dec 3 0)
          else f.div (f.add last.high last.low) (f.dec 2 0))

  abbrev price_of : String → Bool → List (Kline F) → F
  price_of policy opening [] = nil
  price_of policy opening (last ∷ []) = price_by policy opening last none
  price_of policy opening (last ∷ before ∷ ks) = price_by policy opening last (some before)

  unfoldable pub fill_price : List (Kline F) → String → Bool → F
  fill_price klines policy opening = price_of policy opening (reverse klines)

  -- `x * bps / 10000`
  abbrev per : F → F → F
  per x bps = f.div (f.mul x bps) (f.dec 10_000 0)

  abbrev pub quantity_of : DecisionAction F → F
  quantity_of a = if f.le a.quantity nil then f.dec 1 3 else a.quantity

  abbrev open_trade : Scene F → Run F → DecisionAction F → F → String → BacktestTrade F
  open_trade c r a price side =
      let q = quantity_of a in
      record {
        run_id = c.run_id;
        timestamp = c.now;
        symbol = c.symbol;
        action = a.action;
        side = side;
        quantity = q;
        price = price;
        fee = per (f.mul q price) r.cfg.fee_bps;
        slippage = per (f.mul q price) r.cfg.slippage_bps;
        realized_pnl = nil;
        order_value = f.mul q price;
        leverage = f.to_int a.leverage;
        cycle = c.cycle;
        position_after = q;
        liquidation = false;
        note = "open";
      }

  -- The whole value of the position leaves the available balance, with the fee.
  abbrev opened_run : Scene F → Run F → DecisionAction F → F → String → Run F
  opened_run c r a price side =
      let q = quantity_of a in
      let notional = f.mul q price in
      let fee = per notional r.cfg.fee_bps in
      record r {
        available = f.sub r.available (f.add notional fee);
        equity = f.sub r.equity (f.add fee (per notional r.cfg.slippage_bps));
        positions =
            insert c.symbol (record { symbol = c.symbol; side = side; qty = q; entry = price })
              r.positions;
      }

  unfoldable pub open_position :
      Scene F → DecisionAction F → Run F × List (BacktestTrade F) → Run F × List (BacktestTrade F)
  open_position c a (r, ts) =
      let price = fill_price c.klines r.cfg.fill_policy true in
      let side = if str_eq a.action action_open_short then "short" else "long" in
      if f.le price nil || f.lt r.available (f.mul (quantity_of a) price)
      then (r, ts)
      else (opened_run c r a price side, ts ++ (open_trade c r a price side ∷ []))

  abbrev profit : F → BtPosition F → F
  profit price p =
      f.mul (f.mul (f.sub price p.entry) p.qty)
        (if str_eq p.side "short" then f.sub nil (f.dec 1 0) else f.dec 1 0)

  abbrev max_f : F → F → F
  max_f a b = if f.lt b a then a else b

  -- The margin, the value over the leverage, comes back with the profit.
  abbrev closed_run : Scene F → Run F → F → BtPosition F → Run F
  closed_run c r price p =
      let value = f.mul p.qty price in
      let realized = profit price p in
      let margin = f.div (f.mul p.qty p.entry) (f.of_int r.cfg.leverage) in
      let equity =
        f.add r.equity
          (f.sub (f.sub realized (per value r.cfg.fee_bps)) (per value r.cfg.slippage_bps)) in
      record r {
        available = f.add r.available (f.add margin realized);
        equity = equity;
        positions = erase c.symbol r.positions;
        peak_equity = max_f r.peak_equity equity;
      }

  abbrev close_trade : Scene F → Run F → DecisionAction F → F → BtPosition F → BacktestTrade F
  close_trade c r a price p = record {
    run_id = c.run_id;
    timestamp = c.now;
    symbol = c.symbol;
    action = a.action;
    side = p.side;
    quantity = p.qty;
    price = price;
    fee = per (f.mul p.qty price) r.cfg.fee_bps;
    slippage = per (f.mul p.qty price) r.cfg.slippage_bps;
    realized_pnl = profit price p;
    order_value = nil;
    leverage = r.cfg.leverage;
    cycle = c.cycle;
    position_after = nil;
    liquidation = false;
    note = "close";
  }

  unfoldable pub close_position :
      Scene F
      → DecisionAction F
      → BtPosition F
      → Run F × List (BacktestTrade F)
      → Run F × List (BacktestTrade F)
  close_position c a p (r, ts) =
      let price = fill_price c.klines r.cfg.fill_policy false in
      if f.le price nil
      then (r, ts)
      else (closed_run c r price p, ts ++ (close_trade c r a price p ∷ []))

  -- An action for no symbol is for this one; one for another symbol is passed over.
  abbrev concerns : Scene F → DecisionAction F → Bool
  concerns c a = str_eq a.symbol "" || str_eq a.symbol c.symbol

  abbrev pub acted :
      Scene F
      → DecisionAction F
      → Option (BtPosition F)
      → Run F × List (BacktestTrade F)
      → Run F × List (BacktestTrade F)
  acted c a none x = if is_opening a.action then open_position c a x else x
  acted c a (some p) x =
      if is_closing a.action && side_matches p.side a.action then close_position c a p x else x

  -- One action. A position is opened only where none is held, and closed only by its own side.
  abbrev pub act :
      Scene F → DecisionAction F → Run F × List (BacktestTrade F) → Run F × List (BacktestTrade F)
  act c a (r, ts) =
      if concerns c a then acted c a (lookup c.symbol r.positions) (r, ts) else (r, ts)

  unfoldable pub execute_actions :
      Scene F
      → List (DecisionAction F)
      → Run F × List (BacktestTrade F)
      → Run F × List (BacktestTrade F)
  execute_actions c [] x = x
  execute_actions c (a ∷ acts) x = execute_actions c acts (act c a x)

  abbrev liquidation_trade : String → ℕ → ℕ → String → BtPosition F → BacktestTrade F
  liquidation_trade run_id now cycle reason p = record {
    run_id = run_id;
    timestamp = now;
    symbol = p.symbol;
    action = "liquidate";
    side = p.side;
    quantity = p.qty;
    price = f.mul p.entry (f.dec 95 2);
    fee = nil;
    slippage = nil;
    realized_pnl = profit (f.mul p.entry (f.dec 95 2)) p;
    order_value = nil;
    leverage = pos 0;
    cycle = cycle;
    position_after = nil;
    liquidation = true;
    note = reason;
  }

  -- Every position at 95 % of its entry price, whatever its side, in the order of the map.
  liquidate_from :
      String
      → ℕ
      → ℕ
      → String
      → Dict (BtPosition F)
      → Run F × List (BacktestTrade F)
      → Run F × List (BacktestTrade F)
  liquidate_from run_id now cycle reason [] x = x
  liquidate_from run_id now cycle reason ((k, p) ∷ ps) (r, ts) =
      liquidate_from run_id now cycle reason ps (
        record r {
          equity = f.add r.equity (profit (f.mul p.entry (f.dec 95 2)) p);
          positions = erase k r.positions;
        },
        ts ++ (liquidation_trade run_id now cycle reason p ∷ []),
      )

  unfoldable pub liquidate_all :
      String → ℕ → ℕ → String → Run F × List (BacktestTrade F) → Run F × List (BacktestTrade F)
  unfolding liquidate_from
  liquidate_all run_id now cycle reason (r, ts) =
      let (r', ts') = liquidate_from run_id now cycle reason r.positions (r, ts) in
      (record r' { liquidated = true }, ts')
