-- ===== src/Trader/Execute/Bounded.antt =====
-- The number of open positions across a cycle of internal/trader/engine/engine.go.
use fxcore.Prelude.{
  ℕ, ◌+◌, ◌-◌, ◌≤◌, ◌≡◌, refl, inl, inr, Bool, not, String, List, [], ◌∷◌, arith, if◌then◌else◌,
  count, count-append, length, length-select, select, reverse, Bool-cases, Option-cases,
}
use mathlib.Core.List.{reverse-cons}
use fxcore.Prelude.Dict.{lookup}
use fxcore.Prelude.Float.{Float64}
use fxcore.Model.Trader.{Trader, Position}
use fxcore.Model.Order.{Order}
use fxcore.Model.Decision.{DecisionAction, RiskControl, OrderResult, is_opening, is_closing}
use fxcore.Store.{Store}
use fxcore.Store.Traders.{with_trader_and_positions, Mutation}
use fxcore.Store.Positions
use fxcore.Store.Positions.{add_position, list_positions_by_trader, is_open_of, opened, closed}
use fxcore.Store.Positions.Closing.{close_position-count}
use fxcore.Store.Orders.{add_order}
use fxcore.Trader.Service.{ServiceError}
use fxcore.Trader.Risk.{max_positions_of, filter_by_risk}
use fxcore.Trader.Risk.Bounds.{open_actions, opens, filter_by_risk-bound}
use fxcore.Trader.Execute.{
  Moment, profit, close_position, find_symbol, submit, record_position, execute, ordered,
  execute_all, act_on, engine_position,
}

module _ {F : Type 0} where
  abbrev pub open_count : String → Store F → ℕ
  open_count trader_id s = length (list_positions_by_trader trader_id s)

  abbrev pub open_in : String → Store F → ℕ
  open_in trader_id s = count (is_open_of trader_id) s.positions

  pub count-reverse :
      (p : Position F → Bool) (xs : List (Position F)) → count p (reverse xs) ≡ count p xs
  count-reverse p [] = refl
  count-reverse p (x ∷ xs) = rw (reverse-cons, count-append) (omega (arith, count-reverse p xs))

  pub open_count-eq :
      (trader_id : String) (s : Store F) → open_count trader_id s ≡ open_in trader_id s
  unfolding list_positions_by_trader
  open_count-eq trader_id s = rw (length-select, count-reverse) refl

  pub with_positions :
      (now : ℕ) (id : String)
      (mutate : Trader F → List (Position F) → Mutation ServiceError (Trader F)) (s : Store F)
      → (with_trader_and_positions now id mutate s).1.positions ≡ s.positions
  unfolding with_trader_and_positions
  with_positions now id mutate s = elim (Option-cases (lookup id s.traders)) [
    | inl p ↦ rw (p, with_trader_and_positions) refl
    | inr (t, p) ↦ rw (p, with_trader_and_positions) (ground arith)
  ]

  pub add_order-positions :
      (now : ℕ) (fresh : String) (o : Order F) (s : Store F)
      → (add_order now fresh o s).2.positions ≡ s.positions
  unfolding add_order
  add_order-positions now fresh o s = ground arith

module _ {F : Type 0} ⦃f : Float64 F⦄ where
  pub close-open_in :
      (t : String) (now : ℕ) (trader_id symbol : String) (exit_price : F) (s : Store F)
      → open_in t (close_position now trader_id symbol exit_price s) ≤ open_in t s
  unfolding close_position Positions.close_position
  close-open_in t now trader_id symbol exit_price s =
      elim (Option-cases (find_symbol symbol (list_positions_by_trader trader_id s))) [
        | inl e ↦ rw e (omega arith)
        | inr (p, e) ↦
            rw (e, with_positions) (close_position-count t now p.id (profit exit_price p) s)
      ]

  add-open_in :
      (t : String) (now : ℕ) (fresh : String) (p : Position F) (s : Store F)
      → open_in t (add_position now fresh p s) ≤ open_in t s + 1
  unfolding add_position
  add-open_in t now fresh p s = rw count-append (ground arith)

  record-open_in :
      (m : Moment F) (t : String) (a : DecisionAction F) (r : OrderResult F) (s : Store F)
      → open_in t (record_position m t a r s) ≤ open_in t s + (if opens a then 1 else 0)
  record-open_in m t a r s = elim (Bool-cases (is_opening a.action)) [
    | inl e ↦ rw e (add-open_in t m.now m.position_id (engine_position t a r) s)
    | inr e ↦ elim (Bool-cases (is_closing a.action)) [
      | inl q ↦ rw (e, q) (omega (arith, close-open_in t m.now t a.symbol r.avg_fill_price s))
      | inr q ↦ rw (e, q) (omega arith)
    ]
  ]

  execute-open_in :
      (m : Moment F) (t : String) (a : DecisionAction F) (s : Store F)
      → open_in t (execute m t a s) ≤ open_in t s + (if opens a then 1 else 0)
  unfolding execute
  execute-open_in m t a s = elim (Option-cases (submit m a)) [
    | inl e ↦ rw e (omega arith)
    | inr (r, e) ↦ rw (e, add_order-positions) (record-open_in m t a r s)
  ]

  execute_all-open_in :
      (moments : ℕ → Moment F) (i : ℕ) (t : String) (acts : List (DecisionAction F)) (s : Store F)
      → open_in t (execute_all moments i t acts s) ≤ open_in t s + open_actions acts
  unfolding execute_all
  execute_all-open_in moments i t [] s = omega arith
  execute_all-open_in moments i t (a ∷ acts) s =
      let s' = execute (moments i) t a s in
      elim (Bool-cases (moments i).cancelled) [
        | inl e ↦ rw e (omega arith)
        | inr e ↦ simp e (
            omega (
              arith,
              execute_all-open_in moments (i + 1) t acts s',
              execute-open_in (moments i) t a s,
            ))
      ]

  ordered-opens : (acts : List (DecisionAction F)) → open_actions (ordered acts) ≡ open_actions acts
  ordered-opens acts = rw count-append (parts acts)
    where
      parts :
          (acts : List (DecisionAction F))
          → count opens (select (λ a. is_closing a.action) acts)
              + count opens (select (λ a. not (is_closing a.action)) acts)
            ≡ count opens acts
      parts [] = omega arith
      parts (a ∷ acts) = ground (arith, parts acts)

  -- A cycle that acts on a decision leaves the trader at most as many open positions as the limit, or
  -- as it had if they were more, whatever the exchange answers and wherever the cycle is cancelled.
  pub act_on-bounded :
      (moments : ℕ → Moment F) (t : String) (rc : RiskControl F) (balance : F)
      (acts : List (DecisionAction F)) (s : Store F)
      → open_count t (act_on moments t rc balance acts s)
        ≤ open_count t s + (max_positions_of rc - open_count t s)
  unfolding act_on
  act_on-bounded moments t rc balance acts s =
      let kept = filter_by_risk rc balance (open_count t s) acts in
      let step = execute_all-open_in moments 0 t (ordered kept) s in
      omega (
        arith,
        open_count-eq t s,
        open_count-eq t (execute_all moments 0 t (ordered kept) s),
        ordered-opens kept,
        filter_by_risk-bound rc balance (open_count t s) acts,
        step,
      )
