-- ===== src/Store/Orders/Once.antt =====
-- `AddOrder` and `AddFill` of internal/store/order_fill_store.go, and what they do to what is there.
use fxcore.Prelude.{
  ℕ, ◌≡◌, inl, inr, String, str_eq, eq_iff, true, false, none, some, List, [], ◌∷◌, ◌++◌, arith,
  if◌then◌else◌, is_some, Option-cases,
}
use fxcore.Model.Order.{Order, Fill}
use fxcore.Store.{Store}
use fxcore.Store.Orders.{find_order, find_fill, entered_fill, add_order, add_fill}

module _ {F : Type 0} where
  find_fill-append :
      (id : String) (fs : List (Fill F)) (new : Fill F)
      → find_fill id (fs ++ (new ∷ [])) ≡ (
          if is_some (find_fill id fs)
          then find_fill id fs
          else (if str_eq new.exchange_trade_id id then some new else none))
  find_fill-append id [] new = ground arith
  find_fill-append id (g ∷ fs) new = ground (arith, find_fill-append id fs new)

  find_order-append :
      (id : String) (os : List (Order F)) (new : Order F)
      → find_order id (os ++ (new ∷ [])) ≡ (
          if is_some (find_order id os)
          then find_order id os
          else (if str_eq new.exchange_order_id id then some new else none))
  find_order-append id [] new = ground arith
  find_order-append id (g ∷ os) new = ground (arith, find_order-append id os new)

  -- A fill of the exchange that is there already is answered, and nothing changes.
  pub add_fill_known :
      (now : ℕ) (fresh : String) (f : Fill F) (s : Store F) (g : Fill F)
      → str_eq f.exchange_trade_id "" ≡ false
      → find_fill f.exchange_trade_id s.fills ≡ some g
      → add_fill now fresh f s ≡ (g, false, s)
  unfolding add_fill
  add_fill_known now fresh f s g named found = rw (named, found)

  -- A fill that is new goes to the end of the fills; orders and positions stay.
  pub add_fill_new :
      (now : ℕ) (fresh : String) (f : Fill F) (s : Store F)
      → str_eq f.exchange_trade_id "" ≡ false
      → find_fill f.exchange_trade_id s.fills ≡ none
      → add_fill now fresh f s ≡ (
        entered_fill now fresh f,
        true,
        record s { fills = s.fills ++ (entered_fill now fresh f ∷ []) },
      )
  unfolding add_fill
  add_fill_new now fresh f s named new = rw (named, new)

  -- Once entered, a fill is found; and what was found stays.
  pub find_fill-add_fill :
      (now : ℕ) (fresh : String) (f : Fill F) (s : Store F) (id : String)
      → str_eq f.exchange_trade_id "" ≡ false
      → is_some (find_fill id (add_fill now fresh f s).2.fills)
        ≡ (if str_eq f.exchange_trade_id id then true else is_some (find_fill id s.fills))
  find_fill-add_fill now fresh f s id named =
      elim (Option-cases (find_fill f.exchange_trade_id s.fills)) [
        | inr (g, p) ↦
            rw (add_fill_known now fresh f s g named p)
              (ground (arith, eq_iff f.exchange_trade_id id, p))
        | inl p ↦
            rw (add_fill_new now fresh f s named p)
              (rw find_fill-append (ground (arith, eq_iff f.exchange_trade_id id)))
      ]

  pub add_order-fills :
      (now : ℕ) (fresh : String) (o : Order F) (s : Store F)
      → (add_order now fresh o s).2.fills ≡ s.fills
  unfolding add_order
  add_order-fills now fresh o s = ground arith

  -- Entering an order a second time, under whatever new id, answers with the first and changes
  -- nothing.
  pub add_order_twice :
      (now now' : ℕ) (fresh fresh' : String) (o o' : Order F) (s : Store F)
      → str_eq o.exchange_order_id "" ≡ false
      → o'.exchange_order_id ≡ o.exchange_order_id
      → let (first, added, s') = add_order now fresh o s in
        add_order now' fresh' o' s' ≡ (first, false, s')
  unfolding add_order
  add_order_twice now now' fresh fresh' o o' s named same =
      elim (Option-cases (find_order o.exchange_order_id s.orders)) [
        | inr (g, p) ↦ rw (named, p) (simp (same, named, p))
        | inl p ↦
            rw (named, p)
              (simp (same, named, find_order-append, p)
                (ground (arith, eq_iff o.exchange_order_id o.exchange_order_id)))
      ]
