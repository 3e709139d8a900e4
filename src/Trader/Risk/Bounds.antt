-- ===== src/Trader/Risk/Bounds.antt =====
-- What gets past `filterByRisk` of internal/trader/engine/risk.go.
use fxcore.Prelude.{
  ℕ, ◌+◌, ◌-◌, ◌≤◌, ◌≡◌, ◌⊎◌, refl, map, inl, inr, Bool, true, false, ◌&&◌, ◌||◌, String, eq_iff,
  List, [], ◌∷◌, leb, arith, if◌then◌else◌, All, count, Bool-cases, or_right,
}
use fxcore.Prelude.Int.{ℤ, pos, ltb_ℤ, leb_ℤ}
use fxcore.Prelude.Float.{Float64}
use fxcore.Model.Decision.{DecisionAction, RiskControl, ExchangePosition, is_opening}
use fxcore.Trader.Risk.{
  is_passive, max_positions_of, max_leverage_of, too_small, is_valued, too_large, drops,
  whole_leverage, cut, filter_from, filter_by_risk, max_drawdown_guard, drawn_down, peak_from,
}

own_limit :
    (m : ℤ) → ltb_ℤ (pos 0) m ≡ true → ltb_ℤ m (if leb_ℤ m (pos 0) then pos 1 else m) ≡ false
own_limit m h = ground arith

module _ {F : Type 0} ⦃f : Float64 F⦄ where
  abbrev pub opens : DecisionAction F → Bool
  opens a = is_opening a.action

  -- The actions of a decision that open.
  abbrev pub open_actions : List (DecisionAction F) → ℕ
  open_actions acts = count opens acts

  passive_opens : (a : DecisionAction F) → is_passive a.action ≡ true → opens a ≡ false
  passive_opens a h = ground (
    arith,
    eq_iff a.action "close_long",
    eq_iff a.action "close_short",
    eq_iff a.action "hold",
    eq_iff a.action "wait",
    eq_iff a.action "open_long",
    eq_iff a.action "open_short",
    eq_iff "close_long" "open_long",
    eq_iff "close_long" "open_short",
    eq_iff "close_short" "open_long",
    eq_iff "close_short" "open_short",
    eq_iff "hold" "open_long",
    eq_iff "hold" "open_short",
    eq_iff "wait" "open_long",
    eq_iff "wait" "open_short",
  )

  cut-action : (rc : RiskControl F) (a : DecisionAction F) → (cut rc a).action ≡ a.action
  cut-action rc a = ground arith

  filter_from-bound :
      (rc : RiskControl F) (balance : F) (n : ℕ) (acts : List (DecisionAction F))
      → open_actions (filter_from rc balance n acts) ≤ max_positions_of rc - n
  unfolding filter_from
  filter_from-bound rc balance n [] = omega arith
  filter_from-bound rc balance n (a ∷ acts) = elim (Bool-cases (is_passive a.action)) [
    | inl e ↦
        rw (e, filter_from)
          (rw (passive_opens a e) (omega (arith, filter_from-bound rc balance n acts)))
    | inr e ↦ elim (Bool-cases (is_opening a.action)) [
      | inr q ↦ rw (e, filter_from) (rw q (filter_from-bound rc balance n acts))
      | inl q ↦ elim (Bool-cases (leb (max_positions_of rc) n || drops rc balance a)) [
        | inl d ↦ rw (e, filter_from) (rw (q, d) (filter_from-bound rc balance n acts))
        | inr d ↦
            rw (e, filter_from)
              (rw (q, d)
                (rw (cut-action rc a, q)
                  (ground (arith, filter_from-bound rc balance (n + 1) acts, d))))
      ]
    ]
  ]

  -- At most so many actions that open get past the filter as there are places left.
  pub filter_by_risk-bound :
      (rc : RiskControl F) (balance : F) (open_count : ℕ) (acts : List (DecisionAction F))
      → open_actions (filter_by_risk rc balance open_count acts) ≤ max_positions_of rc - open_count
  unfolding filter_by_risk
  filter_by_risk-bound = filter_from-bound

  -- An action that opens, past the filter: it is not too small, its value is within the ratio where
  -- both are known, and its leverage is within the limit where there is one.
  abbrev pub IsWithin : RiskControl F → F → DecisionAction F → Type 0
  IsWithin rc balance a =
      is_opening a.action ≡ true
      → (too_small a ≡ false)
        × (is_valued balance a ≡ true → too_large rc balance a ≡ false)
        × (ltb_ℤ (pos 0) (max_leverage_of rc a.symbol) ≡ true
            → ltb_ℤ (max_leverage_of rc a.symbol) (whole_leverage a) ≡ false)

  -- The limits of the leverage survive the way to a float and back.
  abbrev pub KeepsLimits : RiskControl F → Type 0
  KeepsLimits rc =
      (symbol : String)
      → f.to_int (f.of_int (max_leverage_of rc symbol)) ≡ max_leverage_of rc symbol

  cut-IsWithin :
      (rc : RiskControl F) (balance : F) (a : DecisionAction F)
      → KeepsLimits rc
      → drops rc balance a ≡ false
      → IsWithin rc balance (cut rc a)
  cut-IsWithin rc balance a h kept opening =
      elim (Bool-cases (
        ltb_ℤ (pos 0) (max_leverage_of rc a.symbol)
        && ltb_ℤ (max_leverage_of rc a.symbol) (whole_leverage a))) [
          | inr e ↦
              rw e (ground (arith, kept), λ v. ground (arith, kept, v), λ m. ground (arith, e, m))
          | inl e ↦ rw e (
            ground (arith, kept),
            λ v. ground (arith, kept, v),
            λ m. rw (h a.symbol) (own_limit (max_leverage_of rc a.symbol) m),
          )
        ]

  passive-IsWithin :
      (rc : RiskControl F) (balance : F) (a : DecisionAction F)
      → is_passive a.action ≡ true
      → IsWithin rc balance a
  passive-IsWithin rc balance a e opening = ground (arith, passive_opens a e, opening)

  -- Every action that opens gets past the filter only within the limits of value and leverage.
  pub filter_by_risk-IsWithin :
      (rc : RiskControl F) (balance : F) (n : ℕ) (acts : List (DecisionAction F))
      → KeepsLimits rc
      → All (IsWithin rc balance) (filter_by_risk rc balance n acts)
  unfolding filter_by_risk filter_from
  filter_by_risk-IsWithin rc balance n [] h = tt
  filter_by_risk-IsWithin rc balance n (a ∷ acts) h = elim (Bool-cases (is_passive a.action)) [
    | inl e ↦
        rw (e, filter_from)
          (passive-IsWithin rc balance a e, filter_by_risk-IsWithin rc balance n acts h)
    | inr e ↦ elim (Bool-cases (is_opening a.action)) [
      | inr q ↦ rw (e, filter_from) (rw q (filter_by_risk-IsWithin rc balance n acts h))
      | inl q ↦ elim (Bool-cases (leb (max_positions_of rc) n || drops rc balance a)) [
        | inl d ↦ rw (e, filter_from) (rw (q, d) (filter_by_risk-IsWithin rc balance n acts h))
        | inr d ↦
            rw (e, filter_from)
              (rw (q, d)
                (
                  cut-IsWithin rc balance a h
                      (or_right (leb (max_positions_of rc) n) (drops rc balance a) d),
                  filter_by_risk-IsWithin rc balance (n + 1) acts h,
                ))
      ]
    ]
  ]

  -- The guard names no symbol, or that of each position.
  pub victims_cases :
      (equities : List F) (positions : List (ExchangePosition F)) (equity : F)
      → (max_drawdown_guard equities positions equity ≡ [])
        ⊎ (max_drawdown_guard equities positions equity ≡ map (λ p. p.symbol) positions)
  unfolding max_drawdown_guard
  victims_cases [] positions equity = inl refl
  victims_cases (base ∷ es) positions equity =
      elim (Bool-cases (drawn_down base (peak_from base (base ∷ es)) equity)) [
        | inl e ↦ inr (rw e refl)
        | inr e ↦ inl (rw e refl)
      ]
