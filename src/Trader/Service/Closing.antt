-- ===== src/Trader/Service/Closing.antt =====
-- `ClosePosition` and `ListPositions` of internal/api/v1/service/trader_svc.go.
pub mod Outcome
use fxcore.Prelude.{
  ℕ, ◌+◌, ◌≡◌, ◌≢◌, ◌⊎◌, refl, sym, ap, subst, inl, inr, String, str_eq, eq_iff, Bool, true, false,
  ◌&&◌, ◌||◌, not, Option, none, some, List, [], ◌∷◌, arith, if◌then◌else◌, is_some, reverse,
  select, Bool-cases, Option-cases,
}
use fxcore.Prelude.Dict.{Dict, lookup, insert}
use fxcore.Prelude.Float.{Float64}
use fxcore.Model.Trader.{Trader, Position, Metrics}
use fxcore.Middleware.ApiError.{ApiError, bad_request, not_found, internal}
use fxcore.Store.{Store}
use fxcore.Store.Traders.{
  Mutation, done, failed, Stored, stored, missing, rejected, may_use, get_trader,
  with_trader_and_positions,
}
use fxcore.Store.Positions
use fxcore.Store.Positions.{get_position, list_positions, closed}
use fxcore.Store.Positions.Closing.{Answers, close_position_lem}
use fxcore.Trader.Service.{ServiceError}
use fxcore.Trader.Service.Metrics.{calc_win_rate}

-- The result of closing: the position, or the error.
pub data Closed (F : Type 0) : Type 0 where
  ok : Position F → Closed F
  err : ApiError → Closed F

module _ {F : Type 0} where
  -- The trader of the position, if it is there, must be the user's or no one's.
  abbrev allowed_by : String → Option (Trader F) → Bool
  allowed_by user_id none = true
  allowed_by user_id (some t) = may_use user_id t.user_id

  abbrev pub allowed : String → Store F → Option (Position F) → Bool
  allowed user_id s none = true
  allowed user_id s (some p) = allowed_by user_id (get_trader p.trader_id s)

  -- `!closed`: the position is there and closed, or it is not there.
  abbrev not_closed : Option (Position F) → ApiError
  not_closed none = not_found "position not found"
  not_closed (some p) =
      if is_some p.closed_at
      then bad_request "position already closed" []
      else not_found "position not found"

module _ {F : Type 0} ⦃f : Float64 F⦄ where
  -- The metrics of a trader after a close with this profit.
  abbrev pub settled : F → String → List (Position F) → Trader F → Trader F
  settled pnl trader_id ps t = record t {
    metrics = record {
      total_pnl = f.add t.metrics.total_pnl pnl;
      win_rate = calc_win_rate ps trader_id;
      trade_count = t.metrics.trade_count + 1;
      daily_pnl = f.add t.metrics.daily_pnl pnl;
    };
  }

  abbrev pub settle : F → String → Trader F → List (Position F) → Mutation ServiceError (Trader F)
  settle pnl trader_id t ps = done (settled pnl trader_id ps t)

  -- A trader that is gone is no error here, and the callback has none of its own.
  abbrev pub closed_with :
      ℕ → F → String → Option (Position F) × Bool × Store F → Closed F × Store F
  closed_with now pnl id (some p, true, s) =
      (ok p, (with_trader_and_positions now p.trader_id (settle pnl p.trader_id) s).1)
  closed_with now pnl id (o, _, s) = (err (not_closed (get_position id s)), s)

  unfoldable pub close_position : ℕ → String → String → F → Store F → Closed F × Store F
  close_position now user_id id pnl s =
      if f.is_nan pnl || f.is_inf pnl
      then (err (bad_request "pnl must be a finite number" (("pnl", "must be finite") ∷ [])), s)
      else (if allowed user_id s (get_position id s)
          then closed_with now pnl id (Positions.close_position now id pnl s)
          else (err (not_found "position not found"), s))

module _ {F : Type 0} where
  -- `uid, ok := owner[p.TraderID]`, filled on a miss from the store.
  abbrev owner_at : Option (Trader F) → String
  owner_at none = ""
  owner_at (some t) = t.user_id

  abbrev owner_in : Store F → String → Option String → Dict String → String × Dict String
  owner_in s id none owner =
      (owner_at (get_trader id s), insert id (owner_at (get_trader id s)) owner)
  owner_in s id (some uid) owner = (uid, owner)

  list_from : Store F → String → String → Dict String → List (Position F) → List (Position F)
  list_from s user_id symbol owner [] = []
  list_from s user_id symbol owner (p ∷ ps) =
      let (uid, owner') = owner_in s p.trader_id (lookup p.trader_id owner) owner in
      let asked = not (str_eq user_id "") in
      let rest = list_from s user_id symbol (if asked then owner' else owner) ps in
      if asked && (not (str_eq uid "") && not (str_eq uid user_id))
      then rest
      else (if str_eq symbol "" || str_eq p.symbol symbol then p ∷ rest else rest)

  unfoldable pub positions : String → String → Store F → List (Position F)
  unfolding list_from
  positions user_id symbol s = list_from s user_id symbol [] (list_positions s)
