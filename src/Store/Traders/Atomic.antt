-- ===== src/Store/Traders/Atomic.antt =====
-- `WithTrader` of internal/store/store.go.
use fxcore.Prelude.{ℕ, ◌≡◌, ◌≢◌, refl, inl, inr, String, eq_iff, none, some, arith, Option-cases}
use fxcore.Prelude.Dict.{lookup}
use fxcore.Prelude.Dict.Laws.{lookup-insert}
use fxcore.Model.Trader.{Trader}
use fxcore.Store.{Store}
use fxcore.Store.Traders.{
  Mutation, done, failed, Stored, stored, missing, rejected, written, with_trader, get_trader,
}

-- What a call has done, by its answer: an error leaves the store alone, and success writes the
-- answered trader, which is the callback's with a new time, under the id and nothing else.
abbrev pub Wrote : {E F : Type 0} → String → Store F → Stored E (Trader F) × Store F → Type 0
Wrote id s (stored t, s') =
    (get_trader id s' ≡ some t)
    × ((j : String) → j ≢ id → get_trader j s' ≡ get_trader j s)
    × (s' ≡ record s { traders = s'.traders })
Wrote id s (missing, s') = (get_trader id s ≡ none) × (s' ≡ s)
Wrote id s (rejected e, s') = s' ≡ s

module _ {E F : Type 0} where
  written-Wrote :
      (now : ℕ) (id : String) (m : Mutation E (Trader F)) (s : Store F)
      → Wrote id s (written now id m s)
  unfolding get_trader
  written-Wrote now id (failed e) s = refl
  written-Wrote now id (done t) s = (
    rw lookup-insert (ground (arith, eq_iff id id)),
    λ j ne. rw lookup-insert (ground (arith, eq_iff id j)),
    refl,
  )

  -- `WithTrader` writes one trader if it exists and the callback agrees, and if not changes nothing.
  pub with_trader-Wrote :
      (now : ℕ) (id : String) (mutate : Trader F → Mutation E (Trader F)) (s : Store F)
      → Wrote id s (with_trader now id mutate s)
  unfolding with_trader get_trader
  with_trader-Wrote now id mutate s = elim (Option-cases (lookup id s.traders)) [
    | inl p ↦ rw (p, with_trader) (p, refl)
    | inr (t, p) ↦ rw (p, with_trader) (written-Wrote now id (mutate t) s)
  ]
