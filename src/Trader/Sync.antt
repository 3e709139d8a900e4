-- ===== src/Trader/Sync.antt =====
-- internal/trader/engine/ordersync.go: the fills that the exchange reports are entered, and correct
-- the positions. The time and the new ids are arguments.
pub mod Once
pub mod Single
use fxcore.Prelude.{
  ℕ, ◌+◌, Bool, true, false, ◌&&◌, ◌||◌, not, Option, none, some, String, str_eq, List, [], ◌∷◌,
  if◌then◌else◌, is_some,
}
use fxcore.Prelude.Int.{ℤ, pos}
use fxcore.Prelude.Float.{Float64}
use fxcore.Model.Trader.{Trader, Position, Status}
use fxcore.Model.Order.{Order, Fill, ExchangeFill}
use fxcore.Store.{Store}
use fxcore.Store.Traders.{with_trader_and_positions}
use fxcore.Store.Positions
use fxcore.Store.Positions.{add_position, list_positions_by_trader, position_open}
use fxcore.Store.Orders.{add_order, add_fill}
use fxcore.Trader.Service.Closing.{settle}

-- What the store draws for one fill.
pub record Draw : Type 0 where
  pub now : ℕ
  pub fill_id : String
  pub order_id : String
  pub position_id : String

-- The side of the position that a fill closes.
abbrev pub side_of : String → String
side_of fill_side = if str_eq fill_side "sell" then "long" else "short"

module _ {F : Type 0} where
  abbrev matches : String → String → Position F → Bool
  matches symbol side p = str_eq p.symbol symbol && str_eq p.side side && not (is_some p.closed_at)

  abbrev pub find_match : String → String → List (Position F) → Option (Position F)
  find_match symbol side [] = none
  find_match symbol side (p ∷ ps) =
      if matches symbol side p then some p else find_match symbol side ps

  abbrev pub has_open : String → List (Position F) → Bool
  has_open symbol [] = false
  has_open symbol (p ∷ ps) =
      str_eq p.symbol symbol && str_eq p.status position_open || has_open symbol ps

module _ {F : Type 0} ⦃f : Float64 F⦄ where
  abbrev nil : F
  nil = f.dec 0 0

  abbrev pub backfill : String → ExchangeFill F → Position F
  backfill trader_id x = record {
    id = "";
    trader_id = trader_id;
    exchange_id = "";
    symbol = x.symbol;
    side = side_of x.side;
    size = x.quantity;
    entry_price = x.price;
    pnl = nil;
    opened_at = 0;
    closed_at = none;
    entry_quantity = nil;
    quantity = x.quantity;
    mark_price = x.price;
    unrealized_pnl = nil;
    leverage = pos 0;
    status = position_open;
    entry_time = 0;
    exit_time = 0;
    exit_price = nil;
    realized_pnl = nil;
    fee = nil;
    close_reason = "";
    source = "ordersync";
  }

  -- A match is closed if the fill covers its quantity, up to 1e-9; if not, it stays as it is.
  abbrev pub settle_match : Draw → String → ExchangeFill F → Position F → Store F → Store F
  settle_match d trader_id x p s =
      if f.le (f.sub p.quantity (f.dec 1 9)) x.quantity
      then (with_trader_and_positions d.now trader_id (settle x.realized_pnl trader_id)
          (Positions.close_position d.now p.id x.realized_pnl s).2).1
      else s

  abbrev pub built : Draw → String → ExchangeFill F → Option (Position F) → Bool → Store F → Store F
  built d trader_id x (some p) there s = settle_match d trader_id x p s
  built d trader_id x none there s =
      if there then s else add_position d.now d.position_id (backfill trader_id x) s

  unfoldable pub position_builder : Draw → String → ExchangeFill F → Store F → Store F
  position_builder d trader_id x s =
      let held = list_positions_by_trader trader_id s in
      built d trader_id x (find_match x.symbol (side_of x.side) held) (has_open x.symbol held) s

  abbrev pub fill_of : String → ExchangeFill F → Fill F
  fill_of trader_id x = record {
    id = "";
    trader_id = trader_id;
    order_id = "";
    exchange_order_id = x.exchange_order_id;
    exchange_trade_id = x.exchange_trade_id;
    symbol = x.symbol;
    side = x.side;
    price = x.price;
    quantity = x.quantity;
    quote_quantity = nil;
    commission = x.commission;
    commission_asset = x.commission_asset;
    realized_pnl = x.realized_pnl;
    is_maker = x.is_maker;
    created_at = 0;
  }

  abbrev pub order_of : String → ExchangeFill F → Order F
  order_of trader_id x = record {
    id = "";
    trader_id = trader_id;
    exchange_id = "";
    exchange_order_id = x.exchange_order_id;
    client_order_id = "";
    symbol = x.symbol;
    side = x.side;
    position_side = "";
    type = "market";
    time_in_force = "";
    quantity = x.quantity;
    price = nil;
    stop_price = nil;
    status = "FILLED";
    filled_quantity = x.quantity;
    avg_fill_price = x.price;
    commission = x.commission;
    commission_asset = x.commission_asset;
    leverage = pos 0;
    reduce_only = false;
    close_position = false;
    created_at = 0;
    updated_at = 0;
  }

  -- A fill, an order and a position, each only if the one before it was new.
  abbrev pub after_order : Draw → String → ExchangeFill F → Order F × Bool × Store F → Store F
  after_order d trader_id x (o, added, s) = if added then position_builder d trader_id x s else s

  abbrev pub after_fill : Draw → String → ExchangeFill F → Fill F × Bool × Store F → Store F
  after_fill d trader_id x (g, added, s) =
      if added
      then after_order d trader_id x (add_order d.now d.order_id (order_of trader_id x) s)
      else s

  unfoldable pub sync_fill : Draw → String → ExchangeFill F → Store F → Store F
  sync_fill d trader_id x s =
      after_fill d trader_id x (add_fill d.now d.fill_id (fill_of trader_id x) s)

  -- The loop of `orderSync`; the i-th fill has the i-th draw.
  order_sync : (ℕ → Draw) → ℕ → String → List (ExchangeFill F) → Store F → Store F
  order_sync draws i trader_id [] s = s
  order_sync draws i trader_id (x ∷ xs) s =
      order_sync draws (i + 1) trader_id xs (sync_fill (draws i) trader_id x s)

  unfoldable pub sync : (ℕ → Draw) → String → List (ExchangeFill F) → Store F → Store F
  unfolding order_sync
  sync draws trader_id xs s = order_sync draws 0 trader_id xs s
