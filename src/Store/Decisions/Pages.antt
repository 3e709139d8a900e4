-- ===== src/Store/Decisions/Pages.antt =====
-- The listings of internal/store/decision_store.go, whose loop keeps a cache of owners, beside a plain
-- selection; and the count of the decisions.
use fxcore.Prelude.{
  ℕ, ◌≤◌, ◌≡◌, refl, ap, inl, inr, String, str_eq, eq_iff, eq_refl, Bool, true, false, ◌&&◌, ◌||◌,
  not, some, List, [], ◌∷◌, arith, if◌then◌else◌, length, select, reverse, take, drop, count,
  count-append, length-select, Option-cases,
}
use fxcore.Prelude.Int.{pos}
use mathlib.Core.List.{reverse-cons, reverse-append}
use fxcore.Prelude.Dict.{Dict, lookup}
use fxcore.Prelude.Dict.Laws.{lookup-insert}
use fxcore.Model.Trader.{Trader}
use fxcore.Model.Decision.{DecisionRecord}
use fxcore.Store.{Store}
use fxcore.Store.Positions.{owner_of, cached}
use fxcore.Store.Decisions.{
  listed_from, list_decisions_by_trader, count_of, count_decisions, latest_decision_by_trader,
  add_decision,
}

-- With a trader, its rows; with a user alone, the rows of the traders that the user owns and of those
-- of which no owner is known; with neither, every row.
abbrev pub shows : {F : Type 0} → Dict (Trader F) → String → String → String → Bool
shows traders trader_id user_id row_trader =
    if str_eq trader_id ""
    then str_eq user_id ""
      || (str_eq (owner_of traders row_trader) "" || str_eq (owner_of traders row_trader) user_id)
    else str_eq row_trader trader_id

module _ {F : Type 0} (traders : Dict (Trader F)) (trader_id user_id : String) where
  IsTrue : Dict String → Type 0
  IsTrue owner = (id uid : String) → lookup id owner ≡ some uid → uid ≡ owner_of traders id

  cached-IsTrue :
      (id : String) (owner : Dict String)
      → IsTrue owner
      → ((cached traders id (lookup id owner) owner).0 ≡ owner_of traders id)
        × IsTrue (cached traders id (lookup id owner) owner).1
  unfolding IsTrue
  cached-IsTrue id owner h = elim (Option-cases (lookup id owner)) [
    | inl p ↦ rw p (
      refl,
      λ j uid q.
          ground (arith, lookup-insert id j (owner_of traders id) owner, eq_iff id j, h j uid),
    )
    | inr (uid, p) ↦ rw p (h id uid p, h)
  ]

  if-IsTrue :
      (b : Bool) (owner owner' : Dict String)
      → IsTrue owner
      → IsTrue owner'
      → IsTrue (if b then owner' else owner)
  if-IsTrue true owner owner' h h' = h'
  if-IsTrue false owner owner' h h' = h

  listed-eq-select :
      {A : Type 0} (trader_of : A → String) (owner : Dict String) (rows : List A)
      → IsTrue owner
      → listed_from trader_of traders trader_id user_id owner rows
        ≡ select (λ a. shows traders trader_id user_id (trader_of a)) rows
  unfolding listed_from
  listed-eq-select trader_of owner [] h = refl
  listed-eq-select trader_of owner (a ∷ rows) h =
      let (e, h') = cached-IsTrue (trader_of a) owner h in
      let (uid, owner') = cached traders (trader_of a) (lookup (trader_of a) owner) owner in
      let asked = str_eq trader_id "" && not (str_eq user_id "") in
      rw e (
        rw
          (listed-eq-select trader_of (if asked then owner' else owner) rows
            (if-IsTrue asked owner owner' h h'))
          (ground arith))

module _ {F : Type 0} where
  abbrev pub shown : String → String → Store F → List (DecisionRecord F)
  shown trader_id user_id s =
      select (λ (d : DecisionRecord F). shows s.traders trader_id user_id d.trader_id)
        (reverse s.decisions)

  count_of-eq :
      (trader_id : String) (ds : List (DecisionRecord F))
      → count_of trader_id ds
        ≡ count (λ (d : DecisionRecord F). str_eq trader_id "" || str_eq d.trader_id trader_id) ds
  count_of-eq trader_id [] = refl
  count_of-eq trader_id (d ∷ ds) = ground (arith, count_of-eq trader_id ds)

  count-reverse :
      (p : DecisionRecord F → Bool) (xs : List (DecisionRecord F))
      → count p (reverse xs) ≡ count p xs
  count-reverse p [] = refl
  count-reverse p (x ∷ xs) = rw (reverse-cons, count-append) (omega (arith, count-reverse p xs))

  -- A page of the decisions is a stretch of those that are shown to the user, newest first.
  pub decision_pages :
      (trader_id user_id : String) (offset limit : ℕ) (s : Store F)
      → list_decisions_by_trader trader_id user_id (pos offset) (pos limit) s
        ≡ some (take limit (drop offset (shown trader_id user_id s)))
  unfolding list_decisions_by_trader IsTrue lookup
  decision_pages trader_id user_id offset limit s =
      ap (λ l. some (take limit (drop offset l)))
        (listed-eq-select s.traders trader_id user_id (λ (d : DecisionRecord F). d.trader_id) []
          (reverse s.decisions) (λ id uid e. cc))

  -- The page of decisions at an offset is cut from the list of the decisions shown to the user. The
  -- total that goes with the pages of one trader is the length of that list. With no trader it is
  -- the number of all decisions, whoever owns them, and so no less than that of those shown.
  pub decision_total :
      (trader_id user_id : String) (offset limit : ℕ) (s : Store F)
      → (list_decisions_by_trader trader_id user_id (pos offset) (pos limit) s
          ≡ some (take limit (drop offset (shown trader_id user_id s))))
        × ((str_eq trader_id "" ≡ false)
            → count_decisions trader_id user_id s ≡ length (shown trader_id user_id s))
        × (count_decisions "" user_id s ≡ length s.decisions)
        × (length (shown "" user_id s) ≤ count_decisions "" user_id s)
  unfolding count_decisions
  decision_total trader_id user_id offset limit s = (
    decision_pages trader_id user_id offset limit s,
    λ h. rw (count_of-eq, length-select, count-reverse) (same s.decisions h),
    all s.decisions,
    rw (length-select, count-reverse) (below s.decisions),
  )
    where
      same :
          (ds : List (DecisionRecord F))
          → str_eq trader_id "" ≡ false
          → count (λ (d : DecisionRecord F). str_eq trader_id "" || str_eq d.trader_id trader_id) ds
            ≡ count (λ (d : DecisionRecord F). shows s.traders trader_id user_id d.trader_id) ds
      same [] h = refl
      same (d ∷ ds) h = ground (arith, same ds h)

      all : (ds : List (DecisionRecord F)) → count_of "" ds ≡ length ds
      all [] = refl
      all (d ∷ ds) = ground (arith, all ds, eq_refl "")

      below :
          (ds : List (DecisionRecord F))
          → count (λ (d : DecisionRecord F). shows s.traders "" user_id d.trader_id) ds
            ≤ count_of "" ds
      below [] = omega arith
      below (d ∷ ds) = ground (arith, below ds, eq_refl "")

  -- A decision that is entered for a trader is its latest, and the first of those shown to any user
  -- for that trader, before the ones that were shown until then.
  pub decision_added :
      (fresh user_id : String) (d : DecisionRecord F) (s : Store F)
      → str_eq d.trader_id "" ≡ false
      → (d' : DecisionRecord F) × (d'.decisions ≡ d.decisions)
        × (latest_decision_by_trader d.trader_id (add_decision fresh d s) ≡ some d')
        × (shown d.trader_id user_id (add_decision fresh d s) ≡ d' ∷ shown d.trader_id user_id s)
  unfolding latest_decision_by_trader add_decision
  decision_added fresh user_id d s h =
      let d' : DecisionRecord F = record d { id = if str_eq d.id "" then fresh else d.id } in
      (
        d',
        refl,
        rw (reverse-append s.decisions (d' ∷ [])) (ground (arith, eq_refl d.trader_id)),
        rw (reverse-append s.decisions (d' ∷ [])) (ground (arith, eq_refl d.trader_id)),
      )
