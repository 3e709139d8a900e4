-- ===== src/Trader/Drawdown/Orders.antt =====
-- The orders of the guard against a drawdown, whose loops run over the symbols of the positions and,
-- for each, over the positions.
use fxcore.Prelude.{
  ℕ, ◌*◌, ◌≡◌, ◌≢◌, refl, ap, ◌∙◌, String, str_eq, eq_iff, List, [], ◌∷◌, map, arith, if◌then◌else◌,
  count, count-append, inl, inr,
}
use fxcore.Prelude.Float.{Float64}
use fxcore.Model.Decision.{ExchangePosition}
use fxcore.Trader.Risk.{max_drawdown_guard}
use fxcore.Trader.Risk.Bounds.{victims_cases}
use fxcore.Trader.Drawdown.{guard_closes, in_symbol}

abbrev named : String → List String → ℕ
named sym vs = count (λ v. str_eq v sym) vs

module _ {F : Type 0} where
  abbrev pub count_in : String → List (ExchangePosition F) → ℕ
  count_in sym ps = count (λ (p : ExchangePosition F). str_eq p.symbol sym) ps

  count_in-in_symbol :
      (sym v : String) (ps : List (ExchangePosition F))
      → count_in sym (in_symbol v ps) ≡ (if str_eq v sym then count_in sym ps else 0)
  count_in-in_symbol sym v [] = ground arith
  count_in-in_symbol sym v (p ∷ ps) =
      ground
        (arith, count_in-in_symbol sym v ps, eq_iff v sym, eq_iff p.symbol sym, eq_iff p.symbol v)

  count_in-guard_closes :
      (sym : String) (vs : List String) (ps : List (ExchangePosition F))
      → count_in sym (guard_closes vs ps) ≡ named sym vs * count_in sym ps
  unfolding guard_closes
  count_in-guard_closes sym [] ps = omega arith
  count_in-guard_closes sym (v ∷ vs) ps = grind (
    arith,
    count-append (λ (p : ExchangePosition F). str_eq p.symbol sym) (in_symbol v ps)
        (guard_closes vs ps),
    count_in-in_symbol sym v ps,
    count_in-guard_closes sym vs ps,
  )

  named-map :
      (sym : String) (ps : List (ExchangePosition F))
      → named sym (map (λ p. p.symbol) ps) ≡ count_in sym ps
  named-map sym [] = refl
  named-map sym (p ∷ ps) = ground (arith, named-map sym ps)

  -- The guard, once it is set off, sends for each symbol the square of the number of its positions as
  -- closing orders: one for a single position, and four where there is a long and a short one.
  pub guard_square :
      ⦃f : Float64 F⦄
      → (equities : List F) (positions : List (ExchangePosition F)) (equity : F) (sym : String)
      → max_drawdown_guard equities positions equity ≢ []
      → count_in sym (guard_closes (max_drawdown_guard equities positions equity) positions)
        ≡ count_in sym positions * count_in sym positions
  guard_square es positions equity sym h = elim (victims_cases es positions equity) [
    | inl e ↦ absurd (h e)
    | inr e ↦ rw e (
        count_in-guard_closes sym (map (λ p. p.symbol) positions) positions
        ∙ ap (λ n. n * count_in sym positions) (named-map sym positions))
  ]
