-- ===== src/Trader/Config/Frames.antt =====
-- The time frames of internal/trader/engine/engine.go.
use fxcore.Prelude.{
  ◌≡◌, refl, false, ◌&&◌, ◌||◌, not, String, str_eq, eq_iff, List, [], ◌∷◌, ◌++◌, arith,
  if◌then◌else◌, Bool-cases, inl, inr, ◌∙◌,
}
use fxcore.Model.Strategy.{KlineConfig}
use fxcore.Trader.Config.{mem, extended, primary_of, timeframes}

-- No text twice.
abbrev pub IsDistinct : List String → Type 0
IsDistinct [] = Unit
IsDistinct (x ∷ xs) = (mem x xs ≡ false) × IsDistinct xs

mem-append : (s : String) (xs ys : List String) → mem s (xs ++ ys) ≡ (mem s xs || mem s ys)
mem-append s [] ys = refl
mem-append s (x ∷ xs) ys = ground (arith, mem-append s xs ys)

IsDistinct-snoc :
    (s : String) (xs : List String) → IsDistinct xs → mem s xs ≡ false → IsDistinct (xs ++ (s ∷ []))
IsDistinct-snoc s [] d h = (refl, tt)
IsDistinct-snoc s (x ∷ xs) d h = (
  ground (arith, mem-append x xs (s ∷ []), eq_iff x s, eq_iff s x),
  IsDistinct-snoc s xs d.1 (ground arith),
)

-- A text that is kept is one that was asked for and is not empty.
extended-mem :
    (s : String) (tfs rest : List String)
    → mem s (extended tfs rest) ≡ (mem s tfs || (not (str_eq s "") && mem s rest))
unfolding extended
extended-mem s tfs [] = ground arith
extended-mem s tfs (tf ∷ rest) =
    let next = if str_eq tf "" || mem tf tfs then tfs else tfs ++ (tf ∷ []) in
    extended-mem s next rest
    ∙ ground (arith, mem-append s tfs (tf ∷ []), eq_iff tf s, eq_iff s "", eq_iff tf "")

extended-IsDistinct : (tfs rest : List String) → IsDistinct tfs → IsDistinct (extended tfs rest)
unfolding extended
extended-IsDistinct tfs [] d = d
extended-IsDistinct tfs (tf ∷ rest) d = elim (Bool-cases (str_eq tf "" || mem tf tfs)) [
  | inl e ↦ rw e (extended-IsDistinct tfs rest d)
  | inr e ↦
      rw e (extended-IsDistinct (tfs ++ (tf ∷ [])) rest (IsDistinct-snoc tf tfs d (ground arith)))
]

-- No time frame is asked for twice. The time frames are the primary one and, if several are enabled,
-- those that are selected and not empty.
pub timeframes_lem :
    (kc : KlineConfig)
    → IsDistinct (timeframes kc)
      × ((s : String)
          → mem s (timeframes kc) ≡ (
              str_eq (primary_of kc) s
              || (kc.enable_multi_timeframe
                  && (not (str_eq s "") && mem s kc.selected_timeframes))))
unfolding timeframes
timeframes_lem kc = elim (Bool-cases kc.enable_multi_timeframe) [
  | inl e ↦ rw e (
    extended-IsDistinct (primary_of kc ∷ []) kc.selected_timeframes (refl, tt),
    λ s. ground (arith, extended-mem s (primary_of kc ∷ []) kc.selected_timeframes),
  )
  | inr e ↦ rw e ((refl, tt), λ s. ground arith)
]
