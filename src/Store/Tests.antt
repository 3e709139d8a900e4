-- ===== src/Store/Tests.antt =====
-- A store with two users, two traders and some positions, and the theorems about it at concrete
-- inputs.
use fxcore.Prelude.{◌≡◌, ◌≢◌, refl, false, true, none, some, String, [], ◌∷◌, is_some}
use fxcore.Prelude.Int.{pos}
use fxcore.Prelude.Dict.{lookup}
use fxcore.Prelude.Float.{Fixed, fixed_float}
use fxcore.Model.User.{User}
use fxcore.Model.Trader.{Trader, Position, Status}
use fxcore.Model.Order.{Order}
use fxcore.Store.{Store}
use fxcore.Store.Users
use fxcore.Store.Users.Index.{IsIndexed, create_user_lem}
use fxcore.Store.Traders
use fxcore.Store.Positions
use fxcore.Store.Positions.Closing.{close_position_lem, Answers}

abbrev pub empty : Store Fixed
empty = record {
  users = [];
  email_index = [];
  models = [];
  traders = [];
  positions = [];
  pos_seq = 0;
  orders = [];
  fills = [];
  strategies = [];
  decisions = [];
  equities = [];
}

empty-IsIndexed : IsIndexed empty
unfolding lookup
empty-IsIndexed = record {
  own_id = λ id u e. cc;
  by_email = λ id u e. cc;
  leads = λ email id e. absurd email id e;
}
  where
    absurd :
        (email id : String)
        → lookup email empty.email_index ≡ some id
        → (u : User) × (lookup id empty.users ≡ some u) × (u.email ≡ email)
    absurd email id e = cc

abbrev user : String → String → User
user id email = record {
  id = id;
  email = email;
  password_hash = "h";
  nickname = "";
  avatar = "";
  sign_secret = "s";
  created_at = 0;
  updated_at = 0;
}

create_user_lem_example :
    let (e, s') = Users.create_user 5 "u1" (user "" "a@x") empty in
    IsIndexed s'
    × (is_some (Users.get_user_by_email "a@x" empty) ≡ true
        → (e ≡ some Users.email_taken) × (s' ≡ empty))
    × (is_some (Users.get_user_by_email "a@x" empty) ≡ false
        → (e ≡ none)
          × (Users.get_user_by_email "a@x" s' ≡ some (Users.stamped 5 "u1" (user "" "a@x")))
          × ((j : String)
              → j ≢ "a@x"
              → Users.get_user_by_email j s' ≡ Users.get_user_by_email j empty))
create_user_lem_example =
    create_user_lem 5 "u1" (user "" "a@x") empty empty-IsIndexed (unfold lookup in refl)

abbrev pub one_user : Store Fixed
one_user = (Users.create_user 5 "u1" (user "" "a@x") empty).1

abbrev pub trader : String → String → Status → Trader Fixed
trader id user_id status = record {
  id = id;
  user_id = user_id;
  name = "n";
  exchange = "binance";
  model_config = record { provider = "p"; model_id = "m"; parameters = "" };
  strategy_id = "";
  risk_config = record {
    max_position_size = pos 0;
    stop_loss = pos 0;
    take_profit = pos 0;
    max_daily_loss = pos 0;
  };
  schedule = none;
  status = status;
  metrics = record { total_pnl = pos 0; win_rate = pos 0; trade_count = 0; daily_pnl = pos 0 };
  created_at = 0;
  updated_at = 0;
}

abbrev pub position : String → String → Position Fixed
position id trader_id = record {
  id = id;
  trader_id = trader_id;
  exchange_id = "";
  symbol = "BTC-USDT";
  side = "long";
  size = pos 10_000;
  entry_price = pos 1_000_000;
  pnl = pos 0;
  opened_at = 0;
  closed_at = none;
  entry_quantity = pos 10_000;
  quantity = pos 10_000;
  mark_price = pos 1_000_000;
  unrealized_pnl = pos 0;
  leverage = pos 5;
  status = Positions.position_open;
  entry_time = 0;
  exit_time = 0;
  exit_price = pos 0;
  realized_pnl = pos 0;
  fee = pos 0;
  close_reason = "";
  source = "";
}

abbrev pub two_traders : Store Fixed
two_traders = record empty {
  traders = ("t1", trader "t1" "u1" Status.idle) ∷ ("t2", trader "t2" "u2" Status.running) ∷ [];
  positions = position "p1" "t1" ∷ position "p2" "t2" ∷ [];
}

abbrev start : Trader Fixed → Traders.Mutation String (Trader Fixed)
start t = Traders.done (record t { status = Status.running })

close_position_lem_example :
    let (p, done, s') = Positions.close_position 9 "p1" (pos 5) two_traders in
    Answers 9 (pos 5) (Positions.get_position "p1" two_traders) (p, done)
    × (Positions.get_position "p1" s' ≡ p)
    × ((j : String) → j ≢ "p1" → Positions.get_position j s' ≡ Positions.get_position j two_traders)
close_position_lem_example = close_position_lem 9 "p1" (pos 5) two_traders

abbrev pub an_order : String → Order Fixed
an_order exchange_order_id = record {
  id = "";
  trader_id = "t1";
  exchange_id = "";
  exchange_order_id = exchange_order_id;
  client_order_id = "";
  symbol = "BTC-USDT";
  side = "buy";
  position_side = "long";
  type = "market";
  time_in_force = "";
  quantity = pos 10_000;
  price = pos 0;
  stop_price = pos 0;
  status = "FILLED";
  filled_quantity = pos 10_000;
  avg_fill_price = pos 1_000_000;
  commission = pos 0;
  commission_asset = "";
  leverage = pos 5;
  reduce_only = false;
  close_position = false;
  created_at = 0;
  updated_at = 0;
}
