-- ===== src/Kernel/Lint/Coins.antt =====
-- The run over a coin's name against the regular expression, read as two runs and a dash.
use fxcore.Prelude.{
  ℕ, suc, ◌+◌, ◌≤◌, true, String, [], ◌∷◌, ◌++◌, ◌==◌, Bool-cases, length, All, ◌≡◌, ◌↔◌, inl, inr,
  sym, ap, subst, ◌∙◌, arith,
}
use mathlib.Core.Bool.{false≢true}
use fxcore.Prelude.Text.{Text, codes}
use fxcore.Kernel.Lint.{is_alnum, quote_matches, pair_matches, coin_matches}

abbrev pub Alnum : Text → Type 0
Alnum = All (λ c. is_alnum c ≡ true)

-- `[A-Za-z0-9]{2,12}-[A-Za-z0-9]{2,10}`
abbrev pub IsPair : Text → Type 0
IsPair s =
    (base : Text) × (quote : Text) × (s ≡ base ++ b'-' ∷ quote)
    × Alnum base
    × (2 ≤ length base)
    × (length base ≤ 12)
    × Alnum quote
    × (2 ≤ length quote)
    × (length quote ≤ 10)

quote_matches_iff :
    (n : ℕ) (s : Text)
    → (quote_matches n s ≡ true) ↔ (Alnum s × (2 ≤ n + length s) × (n + length s ≤ 10))
unfolding quote_matches
quote_matches_iff n [] = (λ h. (tt, ground arith, ground arith), λ h. ground arith)
quote_matches_iff n (c ∷ s) =
    let ih = quote_matches_iff (suc n) s in
    elim (Bool-cases (is_alnum c)) [
      | inl e ↦ (
        λ h. let (all, low, high) = ih.0 (rw e at h) in ((e, all), omega arith, omega arith),
        λ h. rw e (ih.1 (h.0.1, omega arith, omega arith)),
      )
      | inr e ↦ (λ h. absurd (false≢true (rw e at h)), λ h. absurd (false≢true (sym e ∙ h.0.0)))
    ]

pair_matches_only :
    (n : ℕ) (s : Text)
    → pair_matches n s ≡ true
    → (base : Text) × (quote : Text) × (s ≡ base ++ b'-' ∷ quote)
      × Alnum base
      × (2 ≤ n + length base)
      × (n + length base ≤ 12)
      × (quote_matches 0 quote ≡ true)
unfolding pair_matches
pair_matches_only n [] h = cc
pair_matches_only n (c ∷ s) h = elim (Bool-cases (is_alnum c)) [
  | inl e ↦
      let (base, quote, same, all, low, high, rest) = pair_matches_only (suc n) s (rw e at h) in
      (c ∷ base, quote, ap (◌∷◌ c) same, (e, all), omega arith, omega arith, rest)
  | inr e ↦
      let h' = rw e at h in
      elim (Bool-cases (c == b'-')) [
        | inl dash ↦ ([], s, ground arith, tt, ground arith, ground arith, ground arith)
        | inr other ↦ absurd (false≢true (rw other at h'))
      ]
]

pair_matches_all :
    (n : ℕ) (base quote : Text)
    → Alnum base
    → 2 ≤ n + length base
    → n + length base ≤ 12
    → quote_matches 0 quote ≡ true
    → pair_matches n (base ++ b'-' ∷ quote) ≡ true
unfolding pair_matches
pair_matches_all n [] quote a l u q = ground (arith)
pair_matches_all n (c ∷ base) quote a l u q = ground (arith, pair_matches_all (suc n) base quote)

-- A coin's name passes exactly when it is two to twelve letters and digits, a dash, and two to ten
-- letters and digits.
pub coin_matches_iff : (c : String) → (coin_matches c ≡ true) ↔ IsPair (codes c)
unfolding coin_matches
coin_matches_iff c = (
  λ h.
      let (base, quote, same, all, low, high, rest) = pair_matches_only 0 (codes c) h in
      let (all', low', high') = (quote_matches_iff 0 quote).0 rest in
      (base, quote, same, all, omega arith, omega arith, all', omega arith, omega arith),
  λ (base, quote, same, all, low, high, all', low', high').
      let rest = (quote_matches_iff 0 quote).1 (all', omega arith, omega arith) in
      subst (λ (t : Text). pair_matches 0 t ≡ true) (sym same)
        (pair_matches_all 0 base quote all (omega arith) (omega arith) rest),
)
