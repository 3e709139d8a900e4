-- ===== src/Trader/Execute.antt =====
-- internal/trader/engine/engine.go: carrying out the actions of a cycle. What the exchange answers to
-- an order, the clock and the new ids are arguments.
pub mod Bounded
use fxcore.Prelude.{
  ℕ, ◌+◌, Bool, true, false, ◌&&◌, ◌||◌, not, Option, none, some, String, str_eq, List, [], ◌∷◌,
  ◌++◌, if◌then◌else◌, select, length,
}
use fxcore.Prelude.Int.{ℤ, pos}
use fxcore.Prelude.Float.{Float64}
use fxcore.Model.Trader.{Trader, Position}
use fxcore.Model.Order.{Order}
use fxcore.Model.Decision.{
  DecisionAction, OrderParams, OrderResult, RiskControl, action_open_long, action_open_short,
  action_close_long, action_close_short, is_opening, is_closing,
}
use fxcore.Store.{Store}
use fxcore.Store.Traders.{with_trader, with_trader_and_positions, Mutation, done}
use fxcore.Store.Positions
use fxcore.Store.Positions.{add_position, list_positions_by_trader, position_open}
use fxcore.Store.Orders.{add_order}
use fxcore.Trader.Service.{ServiceError}
use fxcore.Trader.Service.Closing.{settle}
use fxcore.Trader.Risk.{filter_by_risk}

-- The four methods of `exchange.Adapter` that place orders; `none` is an error.
pub record Adapter (F : Type 0) : Type 0 where
  pub open_long : OrderParams F → Option (OrderResult F)
  pub open_short : OrderParams F → Option (OrderResult F)
  pub close_long : OrderParams F → Option (OrderResult F)
  pub close_short : OrderParams F → Option (OrderResult F)

-- What an action meets: whether the context is cancelled before it, the time, the client's order id,
-- and the ids that the store draws.
pub record Moment (F : Type 0) : Type 0 where
  pub cancelled : Bool
  pub now : ℕ
  pub client_order_id : String
  pub position_id : String
  pub order_id : String
  pub adapter : Adapter F

abbrev pub map_side : String → String
map_side action =
    if str_eq action action_open_long || str_eq action action_close_short then "buy" else "sell"

abbrev pub map_position_side : String → String
map_position_side action =
    if str_eq action action_open_long || str_eq action action_close_long then "long" else "short"

module _ {F : Type 0} where
  abbrev pub find_symbol : String → List (Position F) → Option (Position F)
  find_symbol symbol [] = none
  find_symbol symbol (p ∷ ps) = if str_eq p.symbol symbol then some p else find_symbol symbol ps

module _ {F : Type 0} ⦃f : Float64 F⦄ where
  abbrev pub zero_f : F
  zero_f = f.dec 0 0

  abbrev pub profit : F → Position F → F
  profit exit_price p =
      f.mul (f.mul (f.sub exit_price p.entry_price) p.quantity)
        (if str_eq p.side "short" then f.sub (f.dec 0 0) (f.dec 1 0) else f.dec 1 0)

  abbrev settle_target : ℕ → String → F → Option (Position F) → Store F → Store F
  settle_target now trader_id exit_price none s = s
  settle_target now trader_id exit_price (some p) s =
      (with_trader_and_positions now trader_id (settle (profit exit_price p) trader_id)
        (Positions.close_position now p.id (profit exit_price p) s).2).1

  -- The newest open position in the symbol is closed, whatever its side.
  unfoldable pub close_position : ℕ → String → String → F → Store F → Store F
  close_position now trader_id symbol exit_price s =
      settle_target now trader_id exit_price
        (find_symbol symbol (list_positions_by_trader trader_id s)) s

  abbrev pub params : String → DecisionAction F → OrderParams F
  params client_order_id a = record {
    symbol = a.symbol;
    side = "";
    position_side = "";
    quantity = a.quantity;
    price = zero_f;
    stop_loss = zero_f;
    take_profit = zero_f;
    leverage = f.to_int a.leverage;
    reduce_only = is_closing a.action;
    client_order_id = client_order_id;
  }

  abbrev pub engine_position : String → DecisionAction F → OrderResult F → Position F
  engine_position trader_id a r = record {
    id = "";
    trader_id = trader_id;
    exchange_id = "";
    symbol = a.symbol;
    side = if str_eq a.action action_open_short then "short" else "long";
    size = a.quantity;
    entry_price = r.avg_fill_price;
    pnl = zero_f;
    opened_at = 0;
    closed_at = none;
    entry_quantity = zero_f;
    quantity = a.quantity;
    mark_price = r.avg_fill_price;
    unrealized_pnl = zero_f;
    leverage = f.to_int a.leverage;
    status = position_open;
    entry_time = 0;
    exit_time = 0;
    exit_price = zero_f;
    realized_pnl = zero_f;
    fee = zero_f;
    close_reason = "";
    source = "engine";
  }

  abbrev pub engine_order : String → String → DecisionAction F → OrderResult F → Order F
  engine_order trader_id client_order_id a r = record {
    id = "";
    trader_id = trader_id;
    exchange_id = "";
    exchange_order_id = r.exchange_order_id;
    client_order_id = client_order_id;
    symbol = a.symbol;
    side = map_side a.action;
    position_side = map_position_side a.action;
    type = "market";
    time_in_force = "";
    quantity = a.quantity;
    price = zero_f;
    stop_price = zero_f;
    status = r.status;
    filled_quantity = r.filled_quantity;
    avg_fill_price = r.avg_fill_price;
    commission = zero_f;
    commission_asset = "";
    leverage = f.to_int a.leverage;
    reduce_only = is_closing a.action;
    close_position = false;
    created_at = 0;
    updated_at = 0;
  }

  -- The call of the adapter: none for `hold`, `wait` and anything else.
  abbrev pub submit : Moment F → DecisionAction F → Option (OrderResult F)
  submit m a =
      let p = params m.client_order_id a in
      if str_eq a.action action_open_long
      then m.adapter.open_long p
      else (if str_eq a.action action_open_short
          then m.adapter.open_short p
          else (if str_eq a.action action_close_long
              then m.adapter.close_long p
              else (if str_eq a.action action_close_short then m.adapter.close_short p else none)))

  -- The position first, then the order.
  abbrev pub record_position :
      Moment F → String → DecisionAction F → OrderResult F → Store F → Store F
  record_position m trader_id a r s =
      if is_opening a.action
      then add_position m.now m.position_id (engine_position trader_id a r) s
      else (if is_closing a.action
          then close_position m.now trader_id a.symbol r.avg_fill_price s
          else s)

  abbrev pub recorded :
      Moment F → String → DecisionAction F → Option (OrderResult F) → Store F → Store F
  recorded m trader_id a none s = s
  recorded m trader_id a (some r) s =
      (add_order m.now m.order_id (engine_order trader_id m.client_order_id a r)
        (record_position m trader_id a r s)).2

  unfoldable pub execute : Moment F → String → DecisionAction F → Store F → Store F
  execute m trader_id a s = recorded m trader_id a (submit m a) s

  abbrev pub ordered : List (DecisionAction F) → List (DecisionAction F)
  ordered acts =
      select (λ a. is_closing a.action) acts ++ select (λ a. not (is_closing a.action)) acts

  -- The i-th action meets the i-th moment.
  unfoldable pub execute_all :
      (ℕ → Moment F) → ℕ → String → List (DecisionAction F) → Store F → Store F
  execute_all moments i trader_id [] s = s
  execute_all moments i trader_id (a ∷ acts) s =
      let rest = execute_all moments (i + 1) trader_id acts (execute (moments i) trader_id a s) in
      if (moments i).cancelled then s else rest

  abbrev clear_daily : Trader F → Mutation ServiceError (Trader F)
  clear_daily t = done (record t { metrics = record (t.metrics) { daily_pnl = zero_f } })

  unfoldable pub reset_daily_pnl : ℕ → String → Store F → Store F
  reset_daily_pnl now trader_id s = (with_trader now trader_id clear_daily s).1

  -- The end of a cycle: the filter, with the positions that are open, then the actions in order.
  unfoldable pub act_on :
      (ℕ → Moment F) → String → RiskControl F → F → List (DecisionAction F) → Store F → Store F
  unfolding execute_all
  act_on moments trader_id rc balance acts s =
      execute_all moments 0 trader_id
        (ordered (filter_by_risk rc balance (length (list_positions_by_trader trader_id s)) acts)) s
