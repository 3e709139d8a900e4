-- ===== src/Trader/Sync/Once.antt =====
-- `orderSync` and `positionBuilder` of internal/trader/engine/ordersync.go.
use fxcore.Prelude.{
  ℕ, ◌+◌, ◌≡◌, refl, ◌∙◌, inl, inr, Bool, true, false, ◌||◌, String, str_eq, eq_iff, List, [], ◌∷◌,
  arith, if◌then◌else◌, is_some, All, Bool-cases, Option-cases,
}
use fxcore.Prelude.Dict.{lookup}
use fxcore.Prelude.Float.{Float64}
use fxcore.Model.Trader.{Trader, Position}
use fxcore.Model.Order.{Order, Fill, ExchangeFill}
use fxcore.Store.{Store}
use fxcore.Store.Traders.{with_trader_and_positions, Mutation}
use fxcore.Store.Positions
use fxcore.Store.Positions.{add_position, list_positions_by_trader, opened}
use fxcore.Store.Orders.{add_order, add_fill, find_fill}
use fxcore.Store.Orders.Once.{add_fill_known, find_fill-add_fill, add_order-fills}
use fxcore.Trader.Service.{ServiceError}
use fxcore.Trader.Sync.{
  Draw, find_match, side_of, position_builder, fill_of, order_of, after_order, after_fill,
  sync_fill, order_sync, sync,
}

if_or : (a b : Bool) → (if a then true else b) ≡ (a || b)
if_or true b = refl
if_or false b = refl

module _ {F : Type 0} where
  with_fills :
      (now : ℕ) (id : String)
      (mutate : Trader F → List (Position F) → Mutation ServiceError (Trader F)) (s : Store F)
      → (with_trader_and_positions now id mutate s).1.fills ≡ s.fills
  unfolding with_trader_and_positions
  with_fills now id mutate s = elim (Option-cases (lookup id s.traders)) [
    | inl p ↦ rw (p, with_trader_and_positions) refl
    | inr (t, p) ↦ rw (p, with_trader_and_positions) (ground arith)
  ]

  -- The fill is entered.
  abbrev pub knows : String → Store F → Bool
  knows id s = is_some (find_fill id s.fills)

module _ {F : Type 0} ⦃f : Float64 F⦄ where
  position_builder-fills :
      (d : Draw) (t : String) (x : ExchangeFill F) (s : Store F)
      → (position_builder d t x s).fills ≡ s.fills
  unfolding position_builder Positions.close_position add_position
  position_builder-fills d t x s =
      let held = list_positions_by_trader t s in
      elim (Option-cases (find_match x.symbol (side_of x.side) held)) [
        | inl e ↦ rw e (ground arith)
        | inr (p, e) ↦ elim (Bool-cases (f.le (f.sub p.quantity (f.dec 1 9)) x.quantity)) [
          | inl q ↦ rw (e, q, with_fills) refl
          | inr q ↦ rw (e, q) refl
        ]
      ]

  after_order-fills :
      (d : Draw) (t : String) (x : ExchangeFill F) (r : Order F × Bool × Store F)
      → (after_order d t x r).fills ≡ r.2.fills
  after_order-fills d t x (o, true, s) = position_builder-fills d t x s
  after_order-fills d t x (o, false, s) = refl

  after_fill-fills :
      (d : Draw) (t : String) (x : ExchangeFill F) (r : Fill F × Bool × Store F)
      → (after_fill d t x r).fills ≡ r.2.fills
  after_fill-fills d t x (g, true, s) =
      after_order-fills d t x (add_order d.now d.order_id (order_of t x) s)
      ∙ add_order-fills d.now d.order_id (order_of t x) s
  after_fill-fills d t x (g, false, s) = refl

  -- A fill with an id is known from then on, and known fills stay known.
  sync_fill-knows :
      (d : Draw) (t : String) (x : ExchangeFill F) (s : Store F) (id : String)
      → str_eq x.exchange_trade_id "" ≡ false
      → knows id (sync_fill d t x s) ≡ (str_eq x.exchange_trade_id id || knows id s)
  unfolding sync_fill
  sync_fill-knows d t x s id named =
      rw (after_fill-fills d t x (add_fill d.now d.fill_id (fill_of t x) s)) (
        find_fill-add_fill d.now d.fill_id (fill_of t x) s id named
        ∙ if_or (str_eq x.exchange_trade_id id) (knows id s))

  -- A known fill changes nothing.
  sync_fill-known :
      (d : Draw) (t : String) (x : ExchangeFill F) (s : Store F)
      → str_eq x.exchange_trade_id "" ≡ false
      → knows x.exchange_trade_id s ≡ true
      → sync_fill d t x s ≡ s
  unfolding sync_fill
  sync_fill-known d t x s named known =
      elim (Option-cases (find_fill x.exchange_trade_id s.fills)) [
        | inl e ↦ ground (arith, known, e)
        | inr (g, e) ↦ rw (add_fill_known d.now d.fill_id (fill_of t x) s g named e) refl
      ]

  -- Every fill of the exchange has a trade id.
  abbrev pub IsNamed : ExchangeFill F → Type 0
  IsNamed x = str_eq x.exchange_trade_id "" ≡ false

  abbrev IsKnown : Store F → ExchangeFill F → Type 0
  IsKnown s x = knows x.exchange_trade_id s ≡ true

  order_sync-keeps :
      (draws : ℕ → Draw) (i : ℕ) (t : String) (xs : List (ExchangeFill F)) (s : Store F)
      (id : String)
      → All IsNamed xs
      → knows id s ≡ true
      → knows id (order_sync draws i t xs s) ≡ true
  unfolding order_sync
  order_sync-keeps draws i t [] s id named k = k
  order_sync-keeps draws i t (x ∷ xs) s id (n, named) k =
      order_sync-keeps draws (i + 1) t xs (sync_fill (draws i) t x s) id named
        (ground (arith, sync_fill-knows (draws i) t x s id n, k))

  order_sync-knows :
      (draws : ℕ → Draw) (i : ℕ) (t : String) (xs : List (ExchangeFill F)) (s : Store F)
      → All IsNamed xs
      → All (IsKnown (order_sync draws i t xs s)) xs
  unfolding order_sync
  order_sync-knows draws i t [] s named = tt
  order_sync-knows draws i t (x ∷ xs) s (n, named) =
      let s' = sync_fill (draws i) t x s in
      (
        order_sync-keeps draws (i + 1) t xs s' x.exchange_trade_id named (
            ground (
              arith,
              sync_fill-knows (draws i) t x s x.exchange_trade_id n,
              eq_iff x.exchange_trade_id x.exchange_trade_id,
            )),
        order_sync-knows draws (i + 1) t xs s' named,
      )

  order_sync-known :
      (draws : ℕ → Draw) (i : ℕ) (t : String) (xs : List (ExchangeFill F)) (s : Store F)
      → All IsNamed xs
      → All (IsKnown s) xs
      → order_sync draws i t xs s ≡ s
  unfolding order_sync
  order_sync-known draws i t [] s named known = refl
  order_sync-known draws i t (x ∷ xs) s (n, named) (k, known) =
      rw (sync_fill-known (draws i) t x s n k) (order_sync-known draws (i + 1) t xs s named known)

  -- Entering the same fills of the exchange a second time, at whatever time, changes nothing, if each
  -- has a trade id.
  pub sync_twice :
      (draws again : ℕ → Draw) (t : String) (xs : List (ExchangeFill F)) (s : Store F)
      → All IsNamed xs
      → sync again t xs (sync draws t xs s) ≡ sync draws t xs s
  unfolding sync
  sync_twice draws again t xs s named =
      order_sync-known again 0 t xs (order_sync draws 0 t xs s) named
        (order_sync-knows draws 0 t xs s named)
