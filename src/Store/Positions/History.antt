-- ===== src/Store/Positions/History.antt =====
-- `ListPositionHistory` and `CountPositionHistory` of internal/store/store.go, whose loops keep a cache
-- of owners, beside a plain selection.
use fxcore.Prelude.{
  ℕ, ◌≡◌, refl, ap, inl, inr, String, str_eq, eq_iff, Bool, true, false, ◌&&◌, ◌||◌, not, some,
  List, [], ◌∷◌, arith, if◌then◌else◌, length, select, reverse, Option-cases,
}
use fxcore.Prelude.Dict.{Dict, lookup}
use fxcore.Prelude.Dict.Laws.{lookup-insert}
use fxcore.Model.Trader.{Trader, Position}
use fxcore.Store.{Store}
use fxcore.Store.Positions.{
  take, drop, owner_of, cached, in_history, visible, asks_owner, history_from, count_from,
  list_position_history, count_position_history,
}

module _ {F : Type 0} where
  -- The closed positions that the filters let through.
  abbrev pub belongs : Dict (Trader F) → String → String → String → Position F → Bool
  belongs traders trader_id user_id symbol p =
      in_history trader_id symbol p && visible traders trader_id user_id p

  abbrev pub shown : String → String → String → Store F → List (Position F)
  shown trader_id user_id symbol s =
      select (belongs s.traders trader_id user_id symbol) (reverse s.positions)

  module _ (traders : Dict (Trader F)) (trader_id user_id symbol : String) where
    -- What the cache holds is true.
    IsTrue : Dict String → Type 0
    IsTrue owner = (id uid : String) → lookup id owner ≡ some uid → uid ≡ owner_of traders id

    cached-IsTrue :
        (id : String) (owner : Dict String)
        → IsTrue owner
        → ((cached traders id (lookup id owner) owner).0 ≡ owner_of traders id)
          × IsTrue (cached traders id (lookup id owner) owner).1
    unfolding IsTrue
    cached-IsTrue id owner h = elim (Option-cases (lookup id owner)) [
      | inl p ↦ rw p (
        refl,
        λ j uid q.
            ground (arith, lookup-insert id j (owner_of traders id) owner, eq_iff id j, h j uid),
      )
      | inr (uid, p) ↦ rw p (h id uid p, h)
    ]

    -- Both loops take the very test of the selection.
    test-eq-belongs :
        (p : Position F) (uid : String)
        → uid ≡ owner_of traders p.trader_id
        → (in_history trader_id symbol p
            && (not (asks_owner trader_id user_id p) || (str_eq uid "" || str_eq uid user_id)))
          ≡ belongs traders trader_id user_id symbol p
    test-eq-belongs p uid e = ground arith

    if-IsTrue :
        (b : Bool) (owner owner' : Dict String)
        → IsTrue owner
        → IsTrue owner'
        → IsTrue (if b then owner' else owner)
    if-IsTrue true owner owner' h h' = h'
    if-IsTrue false owner owner' h h' = h

    history-eq-select :
        (owner : Dict String) (ps : List (Position F))
        → IsTrue owner
        → history_from traders trader_id user_id symbol owner ps
          ≡ select (belongs traders trader_id user_id symbol) ps
    unfolding history_from
    history-eq-select owner [] h = refl
    history-eq-select owner (p ∷ ps) h =
        let (e, h') = cached-IsTrue p.trader_id owner h in
        let (uid, owner') = cached traders p.trader_id (lookup p.trader_id owner) owner in
        let asked = asks_owner trader_id user_id p in
        rw (test-eq-belongs p uid e) (
          rw (
            history-eq-select (if asked then owner' else owner) ps
              (if-IsTrue asked owner owner' h h')))

    count-eq-length :
        (owner : Dict String) (ps : List (Position F))
        → IsTrue owner
        → count_from traders trader_id user_id symbol owner ps
          ≡ length (select (belongs traders trader_id user_id symbol) ps)
    unfolding count_from
    count-eq-length owner [] h = refl
    count-eq-length owner (p ∷ ps) h =
        let (e, h') = cached-IsTrue p.trader_id owner h in
        let (uid, owner') = cached traders p.trader_id (lookup p.trader_id owner) owner in
        let asked = asks_owner trader_id user_id p in
        rw (test-eq-belongs p uid e) (
          rw
            (count-eq-length (if asked then owner' else owner) ps
              (if-IsTrue asked owner owner' h h'))
            (ground arith))

  -- A page of the history is a stretch of the closed positions that the trader, the owner and the
  -- symbol let through, newest first; and the count is the length of all of them.
  pub history_pages :
      (trader_id user_id symbol : String) (offset limit : ℕ) (s : Store F)
      → (list_position_history trader_id user_id symbol offset limit s
          ≡ take limit (drop offset (shown trader_id user_id symbol s)))
        × (count_position_history trader_id user_id symbol s
            ≡ length (shown trader_id user_id symbol s))
  unfolding list_position_history count_position_history IsTrue lookup
  history_pages trader_id user_id symbol offset limit s = (
    ap (λ l. take limit (drop offset l))
        (history-eq-select s.traders trader_id user_id symbol [] (reverse s.positions)
          (λ id uid e. cc)),
    count-eq-length s.traders trader_id user_id symbol [] (reverse s.positions) (λ id uid e. cc),
  )
