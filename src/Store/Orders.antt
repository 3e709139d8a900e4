-- ===== src/Store/Orders.antt =====
-- internal/store/order_fill_store.go: orders and fills, with the ids that the exchange gives them.
pub mod Once
use fxcore.Prelude.{
  ℕ, String, str_eq, Bool, true, false, Option, none, some, List, [], ◌∷◌, ◌++◌, if◌then◌else◌,
  select,
}
use fxcore.Model.Order.{Order, Fill}
use fxcore.Store.{Store}

module _ {F : Type 0} where
  abbrev pub find_order : String → List (Order F) → Option (Order F)
  find_order exchange_order_id [] = none
  find_order exchange_order_id (o ∷ os) =
      if str_eq o.exchange_order_id exchange_order_id
      then some o
      else find_order exchange_order_id os

  abbrev pub find_fill : String → List (Fill F) → Option (Fill F)
  find_fill exchange_trade_id [] = none
  find_fill exchange_trade_id (f ∷ fs) =
      if str_eq f.exchange_trade_id exchange_trade_id
      then some f
      else find_fill exchange_trade_id fs

  -- An order with no id of the exchange is never taken for one that is there.
  abbrev known_order : Order F → Store F → Option (Order F)
  known_order o s =
      if str_eq o.exchange_order_id "" then none else find_order o.exchange_order_id s.orders

  abbrev known_fill : Fill F → Store F → Option (Fill F)
  known_fill f s =
      if str_eq f.exchange_trade_id "" then none else find_fill f.exchange_trade_id s.fills

  abbrev entered_order : ℕ → String → Order F → Order F
  entered_order now fresh o = record o {
    id = if str_eq o.id "" then fresh else o.id;
    created_at = now;
    updated_at = now;
  }

  abbrev entered_fill : ℕ → String → Fill F → Fill F
  entered_fill now fresh f = record f {
    id = if str_eq f.id "" then fresh else f.id;
    created_at = now;
  }

  abbrev order_entry : Option (Order F) → Order F → Store F → Order F × Bool × Store F
  order_entry (some o) new s = (o, false, s)
  order_entry none new s = (new, true, record s { orders = s.orders ++ (new ∷ []) })

  abbrev fill_entry : Option (Fill F) → Fill F → Store F → Fill F × Bool × Store F
  fill_entry (some f) new s = (f, false, s)
  fill_entry none new s = (new, true, record s { fills = s.fills ++ (new ∷ []) })

  unfoldable pub add_order : ℕ → String → Order F → Store F → Order F × Bool × Store F
  add_order now fresh o s = order_entry (known_order o s) (entered_order now fresh o) s

  unfoldable pub add_fill : ℕ → String → Fill F → Store F → Fill F × Bool × Store F
  add_fill now fresh f s = fill_entry (known_fill f s) (entered_fill now fresh f) s

  pub get_order : String → Store F → Option (Order F)
  get_order id s = at_id s.orders
    where
      at_id : List (Order F) → Option (Order F)
      at_id [] = none
      at_id (o ∷ os) = if str_eq o.id id then some o else at_id os

  pub list_fills_by_order : String → Store F → List (Fill F)
  list_fills_by_order order_id s = select (λ f. str_eq f.order_id order_id) s.fills
