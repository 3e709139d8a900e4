-- ===== src/Trader/Risk.antt =====
-- internal/trader/engine/risk.go: the limits that the AI's actions must keep.
pub mod Bounds
use Prim.Native.Char.{code}
use fxcore.Prelude.{
  ℕ, ◌+◌, ◌-◌, Bool, true, false, ◌&&◌, ◌||◌, not, Option, none, some, String, List, [], ◌∷◌, ltb,
  leb, ◌==◌, if◌then◌else◌, map, str_eq,
}
use fxcore.Prelude.Int.{ℤ, pos, pos_part, ltb_ℤ, leb_ℤ}
use fxcore.Prelude.Float.{Float64}
use fxcore.Model.Decision.{
  DecisionAction, RiskControl, ExchangePosition, action_close_long, action_close_short, action_hold,
  action_wait, is_opening, is_closing,
}

-- Go's `ToUpper`, on the ASCII letters: no other letter becomes one of BTCETH.
abbrev upper : ℕ → ℕ
upper c = if leb b'a' c && leb c b'z' then c - 32 else c

upper_prefix : List ℕ → String → Bool
upper_prefix [] s = true
upper_prefix (p ∷ ps) String.[] = false
upper_prefix (p ∷ ps) (String.◌∷◌ c s) = (upper (code c) == p) && upper_prefix ps s

unfoldable pub is_btc_eth : String → Bool
unfolding upper_prefix
is_btc_eth symbol =
    upper_prefix (b'B' ∷ b'T' ∷ b'C' ∷ []) symbol || upper_prefix (b'E' ∷ b'T' ∷ b'H' ∷ []) symbol

-- Actions that need no check.
abbrev pub is_passive : String → Bool
is_passive a =
    str_eq a action_close_long
    || str_eq a action_close_short
    || str_eq a action_hold
    || str_eq a action_wait

module _ {F : Type 0} ⦃f : Float64 F⦄ where
  abbrev pub nil : F
  nil = f.dec 0 0

  unfoldable pub margin_rate : ℤ → F
  margin_rate leverage =
      f.add (f.div (f.dec 101 2) (f.of_int (if leb_ℤ leverage (pos 0) then pos 1 else leverage)))
        (f.dec 1 3)

  abbrev pub min_position_size : String → F
  min_position_size symbol = if is_btc_eth symbol then f.dec 60 0 else f.dec 12 0

  unfoldable pub compute_position_value : F → F → F
  compute_position_value qty price =
      if f.le qty nil || f.le price nil || f.is_nan (f.mul qty price) || f.is_inf (f.mul qty price)
      then nil
      else f.mul qty price

  unfoldable pub margin_needed : F → ℤ → F
  margin_needed notional leverage = f.mul notional (margin_rate leverage)

  -- `rc.MaxPositions`, or 3.
  abbrev pub max_positions_of : RiskControl F → ℕ
  max_positions_of rc = if leb_ℤ rc.max_positions (pos 0) then 3 else pos_part rc.max_positions

  abbrev pub ratio_of : RiskControl F → String → F
  ratio_of rc symbol =
      let r =
        if is_btc_eth symbol
        then rc.btc_eth_max_position_value_ratio
        else rc.altcoin_max_position_value_ratio in
      if f.le r nil then f.dec 1 0 else r

  abbrev pub max_leverage_of : RiskControl F → String → ℤ
  max_leverage_of rc symbol =
      if is_btc_eth symbol then rc.btc_eth_max_leverage else rc.altcoin_max_leverage

  -- Checks 2 to 4; a check that cannot be made is passed.
  abbrev pub too_small : DecisionAction F → Bool
  too_small a =
      f.lt nil a.quantity
      && f.lt nil a.price
      && f.lt (f.mul a.quantity a.price) (min_position_size a.symbol)

  abbrev pub is_valued : F → DecisionAction F → Bool
  is_valued balance a = f.lt nil balance && (f.lt nil a.quantity && f.lt nil a.price)

  abbrev pub too_large : RiskControl F → F → DecisionAction F → Bool
  too_large rc balance a =
      f.lt (f.mul (ratio_of rc a.symbol) balance) (compute_position_value a.quantity a.price)

  abbrev pub too_much_margin : RiskControl F → F → DecisionAction F → Bool
  too_much_margin rc balance a =
      f.lt nil rc.max_margin_usage
      && f.lt (f.mul rc.max_margin_usage balance)
          (margin_needed (compute_position_value a.quantity a.price) (f.to_int a.leverage))

  -- Whether checks 2 to 4 drop the action.
  abbrev pub drops : RiskControl F → F → DecisionAction F → Bool
  drops rc balance a =
      too_small a
      || (is_valued balance a && (too_large rc balance a || too_much_margin rc balance a))

  abbrev pub whole_leverage : DecisionAction F → ℤ
  whole_leverage a = if leb_ℤ (f.to_int a.leverage) (pos 0) then pos 1 else f.to_int a.leverage

  -- Check 5 cuts the leverage down.
  abbrev pub cut : RiskControl F → DecisionAction F → DecisionAction F
  cut rc a =
      let m = max_leverage_of rc a.symbol in
      if ltb_ℤ (pos 0) m && ltb_ℤ m (whole_leverage a)
      then record a { leverage = f.of_int m }
      else a

  -- The loop over the actions, with the number of open positions.
  filter_from : RiskControl F → F → ℕ → List (DecisionAction F) → List (DecisionAction F)
  filter_from rc balance open_count [] = []
  filter_from rc balance open_count (a ∷ acts) = elim (is_passive a.action) [
    | true ↦ a ∷ filter_from rc balance open_count acts
    | false ↦ elim (is_opening a.action) [
      | false ↦ filter_from rc balance open_count acts
      | true ↦ elim (leb (max_positions_of rc) open_count || drops rc balance a) [
        | true ↦ filter_from rc balance open_count acts
        | false ↦ cut rc a ∷ filter_from rc balance (open_count + 1) acts
      ]
    ]
  ]

  unfoldable pub filter_by_risk :
      RiskControl F → F → ℕ → List (DecisionAction F) → List (DecisionAction F)
  unfolding filter_from
  filter_by_risk rc balance open_count acts = filter_from rc balance open_count acts

  abbrev peak_from : F → List F → F
  peak_from peak [] = peak
  peak_from peak (e ∷ es) = peak_from (if f.lt peak e then e else peak) es

  abbrev drawn_down : F → F → F → Bool
  drawn_down base peak equity =
      not (f.le base nil || f.le equity (f.mul base (f.dec 105 2)))
      && (not (f.le peak nil) && not (f.lt (f.div (f.sub peak equity) peak) (f.dec 40 2)))

  -- The symbols to close, from the trader's equities, oldest first.
  unfoldable pub max_drawdown_guard : List F → List (ExchangePosition F) → F → List String
  max_drawdown_guard [] positions equity = []
  max_drawdown_guard (base ∷ es) positions equity =
      if drawn_down base (peak_from base (base ∷ es)) equity
      then map (λ p. p.symbol) positions
      else []
