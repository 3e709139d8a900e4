-- ===== src/Store/Positions.antt =====
-- The positions of internal/store/store.go, oldest first; listings are newest first.
pub mod Closing
pub mod History
use fxcore.Prelude.{
  ℕ, ◌+◌, ◌-◌, zero, suc, String, str_eq, Bool, true, false, ◌&&◌, ◌||◌, not, Option, none, some,
  List, [], ◌∷◌, ◌++◌, if◌then◌else◌, reverse, is_some, ltb, length, select,
}
use fxcore.Prelude.Dict.{Dict, lookup, insert}
use fxcore.Prelude.Float.{Float64}
use fxcore.Model.Trader.{Trader, Position}
use fxcore.Store.{Store}

abbrev pub position_open : String
position_open = "OPEN"

abbrev pub position_closed : String
position_closed = "CLOSED"

-- `xs[offset:end]`, with both ends cut to the length.
abbrev pub drop {ℓ} : {A : Type ℓ} → ℕ → List A → List A
drop zero xs = xs
drop (suc n) [] = []
drop (suc n) (x ∷ xs) = drop n xs

abbrev pub take {ℓ} : {A : Type ℓ} → ℕ → List A → List A
take zero xs = []
take (suc n) [] = []
take (suc n) (x ∷ xs) = x ∷ take n xs

module _ {F : Type 0} ⦃f : Float64 F⦄ where
  abbrev or_size : F → F → F
  or_size q size = if f.eq q (f.dec 0 0) then size else q

  abbrev pub opened : ℕ → String → Position F → Position F
  opened now fresh p = record p {
    id = fresh;
    opened_at = now;
    status = position_open;
    entry_time = now;
    quantity = or_size p.quantity p.size;
    entry_quantity = or_size p.entry_quantity p.size;
  }

  unfoldable pub add_position : ℕ → String → Position F → Store F → Store F
  add_position now fresh p s = record s {
    positions = s.positions ++ (opened now fresh p ∷ []);
    pos_seq = s.pos_seq + 1;
  }

module _ {F : Type 0} where
  abbrev pub find_position : String → List (Position F) → Option (Position F)
  find_position id [] = none
  find_position id (p ∷ ps) = if str_eq p.id id then some p else find_position id ps

  unfoldable pub get_position : String → Store F → Option (Position F)
  get_position id s = find_position id s.positions

  unfoldable pub list_positions : Store F → List (Position F)
  list_positions s = reverse s.positions

  -- `PnL`, `RealizedPnL`, `Status`, `ExitTime`, `ExitPrice` and `ClosedAt`.
  abbrev pub closed : ℕ → F → Position F → Position F
  closed now pnl p = record p {
    pnl = pnl;
    realized_pnl = pnl;
    status = position_closed;
    exit_time = now;
    exit_price = p.mark_price;
    closed_at = some now;
  }

  -- The loop of `ClosePosition`: the position with its new values and `true`; the one that was closed
  -- before and `false`; or none.
  close_in : ℕ → String → F → List (Position F) → Option (Position F) × Bool × List (Position F)
  close_in now id pnl [] = (none, false, [])
  close_in now id pnl (p ∷ ps) =
      let rest = close_in now id pnl ps in
      if str_eq p.id id
      then (if is_some p.closed_at
          then (some p, false, p ∷ ps)
          else (some (closed now pnl p), true, closed now pnl p ∷ ps))
      else (rest.0, rest.1, p ∷ rest.2)

  unfoldable pub close_position : ℕ → String → F → Store F → Option (Position F) × Bool × Store F
  unfolding close_in
  close_position now id pnl s =
      let (p, done, ps) = close_in now id pnl s.positions in (p, done, record s { positions = ps })

  abbrev pub is_open_of : String → Position F → Bool
  is_open_of trader_id p = str_eq p.trader_id trader_id && not (is_some p.closed_at)

  -- The open positions of a trader.
  unfoldable pub list_positions_by_trader : String → Store F → List (Position F)
  list_positions_by_trader trader_id s = select (is_open_of trader_id) (reverse s.positions)

  -- The owner of a trader, and none if the trader is gone.
  abbrev owner_at : Option (Trader F) → String
  owner_at none = ""
  owner_at (some t) = t.user_id

  unfoldable pub owner_of : Dict (Trader F) → String → String
  owner_of traders id = owner_at (lookup id traders)

  -- `uid, ok := owner[p.TraderID]`, filled on a miss.
  abbrev pub cached : Dict (Trader F) → String → Option String → Dict String → String × Dict String
  cached traders id none owner = (owner_of traders id, insert id (owner_of traders id) owner)
  cached traders id (some uid) owner = (uid, owner)

  -- The tests on one position that need no owner.
  abbrev pub in_history : String → String → Position F → Bool
  in_history trader_id symbol p =
      is_some p.closed_at
      && (str_eq trader_id "" || str_eq p.trader_id trader_id)
      && (str_eq symbol "" || str_eq p.symbol symbol)

  -- Whether the user may see the position: unless the listing is for one trader or for no user, the
  -- trader's owner must be the user, or unknown.
  abbrev pub visible : Dict (Trader F) → String → String → Position F → Bool
  visible traders trader_id user_id p =
      not (str_eq trader_id "")
      || (str_eq user_id ""
          || (str_eq (owner_of traders p.trader_id) ""
              || str_eq (owner_of traders p.trader_id) user_id))

  -- Where the code tests for the owner: past the tests on `closed_at` and on the trader.
  abbrev asks_owner : String → String → Position F → Bool
  asks_owner trader_id user_id p =
      is_some p.closed_at && (str_eq trader_id "" && not (str_eq user_id ""))

  -- The loop with its cache of owners, over the positions newest first.
  history_from :
      Dict (Trader F)
      → String
      → String
      → String
      → Dict String
      → List (Position F)
      → List (Position F)
  history_from traders trader_id user_id symbol owner [] = []
  history_from traders trader_id user_id symbol owner (p ∷ ps) =
      let (uid, owner') = cached traders p.trader_id (lookup p.trader_id owner) owner in
      let asked = asks_owner trader_id user_id p in
      let rest =
        history_from traders trader_id user_id symbol (if asked then owner' else owner) ps in
      if in_history trader_id symbol p && (not asked || (str_eq uid "" || str_eq uid user_id))
      then p ∷ rest
      else rest

  abbrev history : String → String → String → Store F → List (Position F)
  history trader_id user_id symbol s =
      history_from s.traders trader_id user_id symbol [] (reverse s.positions)

  pub list_position_history : String → String → String → ℕ → ℕ → Store F → List (Position F)
  unfolding history_from owner_of
  list_position_history trader_id user_id symbol offset limit s =
      take limit (drop offset (history trader_id user_id symbol s))

  -- The same loop, which counts.
  count_from : Dict (Trader F) → String → String → String → Dict String → List (Position F) → ℕ
  count_from traders trader_id user_id symbol owner [] = 0
  count_from traders trader_id user_id symbol owner (p ∷ ps) =
      let (uid, owner') = cached traders p.trader_id (lookup p.trader_id owner) owner in
      let asked = asks_owner trader_id user_id p in
      let rest = count_from traders trader_id user_id symbol (if asked then owner' else owner) ps in
      if in_history trader_id symbol p && (not asked || (str_eq uid "" || str_eq uid user_id))
      then rest + 1
      else rest

  pub count_position_history : String → String → String → Store F → ℕ
  unfolding count_from owner_of
  count_position_history trader_id user_id symbol s =
      count_from s.traders trader_id user_id symbol [] (reverse s.positions)
