-- ===== src/Trader/Cycle/Kept.antt =====
-- What the steps of a cycle leave alone in the store.
use fxcore.Prelude.{
  ℕ, ◌+◌, ◌≤◌, ◌≡◌, refl, ◌∙◌, Option, none, some, String, List, [], ◌∷◌, arith, Bool-cases,
  Option-cases, inl, inr,
}
use fxcore.Prelude.Dict.{lookup}
use fxcore.Prelude.Float.{Float64}
use fxcore.Model.Trader.{Trader, Position}
use fxcore.Model.Order.{Order}
use fxcore.Model.Decision.{
  DecisionAction, RiskControl, OrderResult, ExchangePosition, is_opening, is_closing,
}
use fxcore.Store.{Store}
use fxcore.Store.Traders.{with_trader, with_trader_and_positions, Mutation}
use fxcore.Store.Positions
use fxcore.Store.Positions.{add_position, list_positions_by_trader}
use fxcore.Store.Orders.{add_order}
use fxcore.Trader.Service.{ServiceError}
use fxcore.Trader.Service.Closing.{settle}
use fxcore.Trader.Execute.{
  Moment, profit, close_position, find_symbol, submit, record_position, execute, execute_all,
  act_on, reset_daily_pnl, engine_order,
}
use fxcore.Trader.Execute.Bounded.{open_in, close-open_in}
use fxcore.Trader.Drawdown.{guard_submit, guard_settle, close_all}

module _ {F : Type 0} where
  -- The records of decisions and the strategies are as before.
  abbrev pub Kept : Store F → Store F → Type 0
  Kept s s' = (s'.decisions ≡ s.decisions) × (s'.strategies ≡ s.strategies)

  -- Nothing was traded.
  abbrev pub Untraded : Store F → Store F → Type 0
  Untraded s s' =
      (s'.positions ≡ s.positions) × (s'.orders ≡ s.orders) × (s'.strategies ≡ s.strategies)

  with_trader-Kept :
      (now : ℕ) (id : String) (mutate : Trader F → Mutation ServiceError (Trader F)) (s : Store F)
      → let s' = (with_trader now id mutate s).1 in Untraded s s' × (s'.decisions ≡ s.decisions)
  unfolding with_trader
  with_trader-Kept now id mutate s = elim (Option-cases (lookup id s.traders)) [
    | inl p ↦ rw (p, with_trader) ((refl, refl, refl), refl)
    | inr (t, p) ↦ rw (p, with_trader) (ground arith)
  ]

  with_both-Kept :
      (now : ℕ) (id : String)
      (mutate : Trader F → List (Position F) → Mutation ServiceError (Trader F)) (s : Store F)
      → let s' = (with_trader_and_positions now id mutate s).1 in
        Untraded s s' × (s'.decisions ≡ s.decisions)
  unfolding with_trader_and_positions
  with_both-Kept now id mutate s = elim (Option-cases (lookup id s.traders)) [
    | inl p ↦ rw (p, with_trader_and_positions) ((refl, refl, refl), refl)
    | inr (t, p) ↦ rw (p, with_trader_and_positions) (ground arith)
  ]

module _ {F : Type 0} ⦃f : Float64 F⦄ where
  pub reset-Kept :
      (now : ℕ) (id : String) (s : Store F)
      → let s' = reset_daily_pnl now id s in Untraded s s' × (s'.decisions ≡ s.decisions)
  unfolding reset_daily_pnl
  reset-Kept now id s = with_trader-Kept now id _ s

  closing-Kept :
      (now : ℕ) (id : String) (pnl : F) (s : Store F)
      → let s' = (Positions.close_position now id pnl s).2 in
        (s'.orders ≡ s.orders) × (s'.strategies ≡ s.strategies) × (s'.decisions ≡ s.decisions)
  unfolding Positions.close_position
  closing-Kept now id pnl s = (refl, refl, refl)

  -- A close that is entered leaves the orders, the strategies and the decisions.
  close-Kept :
      (now : ℕ) (trader_id symbol : String) (exit_price : F) (s : Store F)
      → let s' = close_position now trader_id symbol exit_price s in
        Kept s s' × (s'.orders ≡ s.orders)
  unfolding close_position
  close-Kept now trader_id symbol exit_price s =
      elim (Option-cases (find_symbol symbol (list_positions_by_trader trader_id s))) [
        | inl e ↦ rw e ((refl, refl), refl)
        | inr (p, e) ↦
            let s1 = (Positions.close_position now p.id (profit exit_price p) s).2 in
            let ((q, o, st), d) =
              with_both-Kept now trader_id (settle (profit exit_price p) trader_id) s1 in
            let (o1, st1, d1) = closing-Kept now p.id (profit exit_price p) s in
            rw e ((d ∙ d1, st ∙ st1), o ∙ o1)
      ]

  settle-Kept :
      (m : Moment F) (t : String) (p : ExchangePosition F) (r : Option (OrderResult F))
      (s : Store F)
      → let s' = guard_settle m t p r s in
        Kept s s' × (s'.orders ≡ s.orders) × (open_in t s' ≤ open_in t s)
  settle-Kept m t p none s = ((refl, refl), refl, omega arith)
  settle-Kept m t p (some r) s =
      let (k, o) = close-Kept m.now t p.symbol r.avg_fill_price s in
      (k, o, close-open_in t m.now t p.symbol r.avg_fill_price s)

  pub close_all-Kept :
      (moments : ℕ → Moment F) (i : ℕ) (t : String) (ps : List (ExchangePosition F)) (s : Store F)
      → let s' = close_all moments i t ps s in
        Kept s s' × (s'.orders ≡ s.orders) × (open_in t s' ≤ open_in t s)
  unfolding close_all
  close_all-Kept moments i t [] s = ((refl, refl), refl, omega arith)
  close_all-Kept moments i t (p ∷ ps) s =
      let s1 = guard_settle (moments i) t p (guard_submit (moments i) p) s in
      let ((d, st), o, n) = settle-Kept (moments i) t p (guard_submit (moments i) p) s in
      let ((d', st'), o', n') = close_all-Kept moments (i + 1) t ps s1 in
      ((d' ∙ d, st' ∙ st), o' ∙ o, omega (arith, n, n'))

  record-Kept :
      (m : Moment F) (t : String) (a : DecisionAction F) (r : OrderResult F) (s : Store F)
      → Kept s (record_position m t a r s)
  unfolding add_position
  record-Kept m t a r s = elim (Bool-cases (is_opening a.action)) [
    | inl e ↦ rw e (refl, refl)
    | inr e ↦ elim (Bool-cases (is_closing a.action)) [
      | inl q ↦ rw (e, q) (close-Kept m.now t a.symbol r.avg_fill_price s).0
      | inr q ↦ rw (e, q) (refl, refl)
    ]
  ]

  add_order-Kept :
      (now : ℕ) (fresh : String) (o : Order F) (s : Store F) → Kept s (add_order now fresh o s).2
  unfolding add_order
  add_order-Kept now fresh o s = ground arith

  execute-Kept :
      (m : Moment F) (t : String) (a : DecisionAction F) (s : Store F) → Kept s (execute m t a s)
  unfolding execute
  execute-Kept m t a s = elim (Option-cases (submit m a)) [
    | inl e ↦ rw e (refl, refl)
    | inr (r, e) ↦
        let (d, st) = record-Kept m t a r s in
        let (d', st') =
          add_order-Kept m.now m.order_id (engine_order t m.client_order_id a r)
            (record_position m t a r s) in
        rw e (d' ∙ d, st' ∙ st)
  ]

  execute_all-Kept :
      (moments : ℕ → Moment F) (i : ℕ) (t : String) (acts : List (DecisionAction F)) (s : Store F)
      → Kept s (execute_all moments i t acts s)
  unfolding execute_all
  execute_all-Kept moments i t [] s = (refl, refl)
  execute_all-Kept moments i t (a ∷ acts) s = elim (Bool-cases (moments i).cancelled) [
    | inl e ↦ rw e (refl, refl)
    | inr e ↦
        let (d, st) = execute-Kept (moments i) t a s in
        let (d', st') = execute_all-Kept moments (i + 1) t acts (execute (moments i) t a s) in
        simp e (d' ∙ d, st' ∙ st)
  ]

  pub act_on-Kept :
      (moments : ℕ → Moment F) (t : String) (rc : RiskControl F) (balance : F)
      (acts : List (DecisionAction F)) (s : Store F)
      → Kept s (act_on moments t rc balance acts s)
  unfolding act_on
  act_on-Kept moments t rc balance acts s = execute_all-Kept moments 0 t _ s
