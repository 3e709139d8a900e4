-- ===== src/Trader/Sync/Single.antt =====
-- The open positions of a trader in one symbol, across `orderSync` of
-- internal/trader/engine/ordersync.go.
use fxcore.Prelude.{
  ℕ, ◌+◌, ◌≤◌, ◌≡◌, refl, sym, subst, ◌∙◌, inl, inr, Bool, true, false, ◌&&◌, String, str_eq,
  eq_iff, List, [], ◌∷◌, arith, select, count, count-append, reverse, Bool-cases, Option-cases,
}
use fxcore.Prelude.Float.{Float64}
use fxcore.Model.Trader.{Position}
use fxcore.Model.Order.{Order, Fill, ExchangeFill}
use fxcore.Store.{Store}
use fxcore.Store.Positions
use fxcore.Store.Positions.{add_position, list_positions_by_trader, is_open_of, position_open}
use fxcore.Store.Positions.Closing.{close_position-counts}
use fxcore.Store.Orders.{add_order, add_fill}
use fxcore.Trader.Execute.Bounded.{count-reverse, with_positions, add_order-positions}
use fxcore.Trader.Sync.{
  Draw, find_match, has_open, side_of, backfill, position_builder, settle_match, fill_of, order_of,
  after_order, after_fill, sync_fill, order_sync, sync,
}

module _ {F : Type 0} where
  -- An open position of the trader in the symbol.
  abbrev pub holds : String → String → Position F → Bool
  holds t symbol p = is_open_of t p && (str_eq p.symbol symbol && str_eq p.status position_open)

  abbrev pub held_in : String → String → Store F → ℕ
  held_in t symbol s = count (holds t symbol) s.positions

  none_listed :
      (t symbol : String) (ps : List (Position F))
      → has_open symbol (select (is_open_of t) ps) ≡ false
      → count (holds t symbol) ps ≡ 0
  none_listed t symbol [] h = refl
  none_listed t symbol (p ∷ ps) h = ground (arith, none_listed t symbol ps, h)

  none_held :
      (t symbol : String) (s : Store F)
      → has_open symbol (list_positions_by_trader t s) ≡ false
      → held_in t symbol s ≡ 0
  unfolding list_positions_by_trader
  none_held t symbol s h =
      sym (count-reverse (holds t symbol) s.positions)
      ∙ none_listed t symbol (reverse s.positions) h

  close_position-held :
      (t symbol : String) (now : ℕ) (id : String) (pnl : F) (s : Store F)
      → held_in t symbol (Positions.close_position now id pnl s).2 ≤ held_in t symbol s
  close_position-held t symbol now id pnl s =
      close_position-counts (holds t symbol) now id pnl s (λ p. ground arith)

module _ {F : Type 0} ⦃f : Float64 F⦄ where
  settle_match-held :
      (t symbol : String) (d : Draw) (trader_id : String) (x : ExchangeFill F) (p : Position F)
      (s : Store F)
      → held_in t symbol (settle_match d trader_id x p s) ≤ held_in t symbol s
  settle_match-held t symbol d trader_id x p s =
      elim (Bool-cases (f.le (f.sub p.quantity (f.dec 1 9)) x.quantity)) [
        | inl e ↦ rw (e, with_positions) (close_position-held t symbol d.now p.id x.realized_pnl s)
        | inr e ↦ rw e (omega arith)
      ]

  -- A position is entered only where the trader holds none in its symbol.
  entered-held :
      (t symbol : String) (d : Draw) (trader_id : String) (x : ExchangeFill F) (s : Store F)
      → held_in trader_id x.symbol s ≡ 0
      → held_in t symbol s ≤ 1
      → held_in t symbol (add_position d.now d.position_id (backfill trader_id x) s) ≤ 1
  unfolding add_position
  entered-held t symbol d trader_id x s free h = elim (Bool-cases (str_eq trader_id t)) [
    | inr e ↦ rw (count-append, e) (ground (arith, h))
    | inl e ↦ elim (Bool-cases (str_eq x.symbol symbol)) [
      | inr q ↦ rw (count-append, e, q) (ground (arith, h))
      | inl q ↦
          let free' : held_in t symbol s ≡ 0 =
            subst (λ k. held_in k symbol s ≡ 0) ((eq_iff trader_id t).0 e)
              (subst (λ k. held_in trader_id k s ≡ 0) ((eq_iff x.symbol symbol).0 q) free) in
          rw (count-append, free') (ground arith)
    ]
  ]

  position_builder-held :
      (t symbol : String) (d : Draw) (trader_id : String) (x : ExchangeFill F) (s : Store F)
      → held_in t symbol s ≤ 1
      → held_in t symbol (position_builder d trader_id x s) ≤ 1
  unfolding position_builder
  position_builder-held t symbol d trader_id x s h =
      let held = list_positions_by_trader trader_id s in
      elim (Option-cases (find_match x.symbol (side_of x.side) held)) [
        | inr (p, e) ↦ rw e (omega (arith, settle_match-held t symbol d trader_id x p s, h))
        | inl e ↦ elim (Bool-cases (has_open x.symbol held)) [
          | inl q ↦ rw (e, q) h
          | inr q ↦
              rw (e, q) (entered-held t symbol d trader_id x s (none_held trader_id x.symbol s q) h)
        ]
      ]

  add_fill-positions :
      (now : ℕ) (fresh : String) (g : Fill F) (s : Store F)
      → (add_fill now fresh g s).2.positions ≡ s.positions
  unfolding add_fill
  add_fill-positions now fresh g s = ground arith

  after_order-held :
      (t symbol : String) (d : Draw) (trader_id : String) (x : ExchangeFill F)
      (r : Order F × Bool × Store F)
      → held_in t symbol r.2 ≤ 1
      → held_in t symbol (after_order d trader_id x r) ≤ 1
  after_order-held t symbol d trader_id x (o, true, s) h =
      position_builder-held t symbol d trader_id x s h
  after_order-held t symbol d trader_id x (o, false, s) h = h

  after_fill-held :
      (t symbol : String) (d : Draw) (trader_id : String) (x : ExchangeFill F)
      (r : Fill F × Bool × Store F)
      → held_in t symbol r.2 ≤ 1
      → held_in t symbol (after_fill d trader_id x r) ≤ 1
  after_fill-held t symbol d trader_id x (g, true, s) h =
      let entry = add_order d.now d.order_id (order_of trader_id x) s in
      after_order-held t symbol d trader_id x entry
        (rw (add_order-positions d.now d.order_id (order_of trader_id x) s) h)
  after_fill-held t symbol d trader_id x (g, false, s) h = h

  order_sync-held :
      (t symbol : String) (draws : ℕ → Draw) (i : ℕ) (trader_id : String)
      (xs : List (ExchangeFill F)) (s : Store F)
      → held_in t symbol s ≤ 1
      → held_in t symbol (order_sync draws i trader_id xs s) ≤ 1
  unfolding order_sync sync_fill
  order_sync-held t symbol draws i trader_id [] s h = h
  order_sync-held t symbol draws i trader_id (x ∷ xs) s h =
      let d = draws i in
      let entry = add_fill d.now d.fill_id (fill_of trader_id x) s in
      order_sync-held t symbol draws (i + 1) trader_id xs (after_fill d trader_id x entry) (
        after_fill-held t symbol d trader_id x entry
          (rw (add_fill-positions d.now d.fill_id (fill_of trader_id x) s) h))

  -- Entering fills of the exchange, of any trader and any symbols, never gives a trader a second
  -- open position in a symbol: if a trader has at most one in a symbol before the fills, it has at
  -- most one in it after them.
  pub one_for_symbol :
      (t symbol : String) (draws : ℕ → Draw) (trader_id : String) (xs : List (ExchangeFill F))
      (s : Store F)
      → held_in t symbol s ≤ 1
      → held_in t symbol (sync draws trader_id xs s) ≤ 1
  unfolding sync
  one_for_symbol t symbol draws trader_id xs s h = order_sync-held t symbol draws 0 trader_id xs s h
