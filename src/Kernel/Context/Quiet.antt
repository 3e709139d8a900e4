-- ===== src/Kernel/Context/Quiet.antt =====
-- The runs that give lines without a candle, whatever the values in them are.
use fxcore.Prelude.{
  ℕ, suc, Bool, true, false, Option, none, some, List, [], ◌∷◌, ◌++◌, map, if◌then◌else◌, length,
  All, Option-cases, inl, inr, ◌≡◌, refl, ap, ◌∙◌,
}
use fxcore.Prelude.Int.{ℤ, pos}
use fxcore.Kernel.Indicators.{Run, ◌>>=◌, Band}
use fxcore.Kernel.Context.{
  Kline, Line, candle, values_of, value_line, opt_line, boll_lines, switched,
}

-- A run that gives a value.
abbrev pub Returns : {A : Type 0} → Run A → Type 0
Returns {A} r = (a : A) × (r ≡ some a)

abbrev pub IsPeriod : ℤ → Type 0
IsPeriod p = (n : ℕ) × (p ≡ pos n)

module _ {F : Type 0} where
  -- The candles that are printed.
  abbrev pub candles_of : List (Line F) → List (Kline F)
  candles_of [] = []
  candles_of (candle k ∷ ls) = k ∷ candles_of ls
  candles_of (_ ∷ ls) = candles_of ls

  pub candles_of-append :
      (xs ys : List (Line F)) → candles_of (xs ++ ys) ≡ candles_of xs ++ candles_of ys
  candles_of-append [] ys = refl
  candles_of-append (candle k ∷ xs) ys = ap (◌∷◌ k) (candles_of-append xs ys)
  candles_of-append (_ ∷ xs) ys = candles_of-append xs ys

  pub candles_of-candles : (ks : List (Kline F)) → candles_of (map candle ks) ≡ ks
  candles_of-candles [] = refl
  candles_of-candles (k ∷ ks) = ap (◌∷◌ k) (candles_of-candles ks)

  -- A run that gives lines without a candle.
  abbrev pub Quiet : Run (List (Line F)) → Type 0
  Quiet r = (ls : List (Line F)) × (r ≡ some ls) × (candles_of ls ≡ [])

  pub values_of-Returns :
      (value : ℤ → Run (Option F)) (ps : List ℤ)
      → All (λ p. Returns (value p)) ps
      → Returns (values_of value ps)
  unfolding values_of
  values_of-Returns value [] h = ([], refl)
  values_of-Returns value (p ∷ ps) ((v, e), h) =
      let (vs, g) = values_of-Returns value ps h in rw (e, g) (_, refl)

  pub values_of-panics :
      (value : ℤ → Run (Option F)) (before : List ℤ) (p : ℤ) (after : List ℤ)
      → value p ≡ none
      → values_of value (before ++ p ∷ after) ≡ none
  unfolding values_of
  values_of-panics value [] p after e = rw e refl
  values_of-panics value (q ∷ before) p after e = elim (Option-cases (value q)) [
    | inl g ↦ rw g refl
    | inr (v, g) ↦ rw (g, values_of-panics value before p after e) refl
  ]

  pub value_line-Quiet :
      (on : Bool) (line : List (ℤ × F) → Line F) (r : Run (List (ℤ × F)))
      → ((vs : List (ℤ × F)) → candles_of (line vs ∷ []) ≡ [])
      → Returns r
      → Quiet (switched on (r >>= λ vs. some (value_line line vs)))
  value_line-Quiet false line r quiet h = ([], refl, refl)
  value_line-Quiet true line r quiet ([], e) = rw e ([], refl, refl)
  value_line-Quiet true line r quiet (v ∷ vs, e) = rw e (_, refl, quiet (v ∷ vs))

  pub opt_line-Quiet :
      {A : Type 0} (on : Bool) (line : A → Line F) (r : Run (Option A))
      → ((a : A) → candles_of (line a ∷ []) ≡ [])
      → Returns r
      → Quiet (switched on (r >>= λ v. some (opt_line line v)))
  opt_line-Quiet false line r quiet h = ([], refl, refl)
  opt_line-Quiet true line r quiet (none, e) = rw e ([], refl, refl)
  opt_line-Quiet true line r quiet (some a, e) = rw e (_, refl, quiet a)

  pub opt_line-quiet :
      {A : Type 0} (on : Bool) (line : A → Line F) (o : Option A)
      → ((a : A) → candles_of (line a ∷ []) ≡ [])
      → candles_of (if on then opt_line line o else []) ≡ []
  opt_line-quiet true line none quiet = refl
  opt_line-quiet true line (some a) quiet = quiet a
  opt_line-quiet false line o quiet = refl

  pub switched-Quiet : (on : Bool) (r : Run (List (Line F))) → Quiet r → Quiet (switched on r)
  switched-Quiet true r q = q
  switched-Quiet false r q = ([], refl, refl)

  pub quiet-append :
      (xs ys : List (Line F)) → candles_of xs ≡ [] → candles_of ys ≡ [] → candles_of (xs ++ ys) ≡ []
  quiet-append xs ys p q = candles_of-append xs ys ∙ rw p q

  pub boll_lines-Quiet :
      (band : ℤ → Run (Option (Band F))) (ps : List ℤ)
      → All (λ p. Returns (band p)) ps
      → Quiet (boll_lines band ps)
  unfolding boll_lines
  boll_lines-Quiet band [] h = ([], refl, refl)
  boll_lines-Quiet band (p ∷ ps) ((none, e), h) =
      let (ls, g, q) = boll_lines-Quiet band ps h in rw (e, g) (ls, refl, q)
  boll_lines-Quiet band (p ∷ ps) ((some b, e), h) =
      let (ls, g, q) = boll_lines-Quiet band ps h in rw (e, g) (_, refl, q)

pub All-map {ℓ κ} :
    {P : ℤ → Type ℓ} {Q : ℤ → Type κ} (ps : List ℤ) → ((p : ℤ) → P p → Q p) → All P ps → All Q ps
All-map [] g h = tt
All-map (p ∷ ps) g h = (g p h.0, All-map ps g h.1)

pub length-map : {A B : Type 0} (g : A → B) (xs : List A) → length (map g xs) ≡ length xs
length-map g [] = refl
length-map g (x ∷ xs) = ap suc (length-map g xs)
