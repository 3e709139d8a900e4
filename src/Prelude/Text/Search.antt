-- ===== src/Prelude/Text/Search.antt =====
-- Where a marker is found: a marker is a text whose first code point does not come again in it, such
-- as `<decision>`, so that it cannot overlap itself.
use Prim.Native.Nat.{ℕ, zero, suc, ◌+◌, ◌≤◌}
use mathlib.Core.Path.{◌≡◌, refl, ◌∙◌}
use mathlib.Core.Bool.{Bool, true, false}
use mathlib.Core.Logic.{inl, inr}
use mathlib.Core.Option.{Option, none, some}
use mathlib.Core.List.{[], ◌∷◌, ◌++◌}
use native.Mathlib.Omega.{arith}
use Prim.Native.Nat.add
use fxcore.Prelude.Tests.{◌==◌, if◌then◌else◌, Bool-cases, is_some}
use fxcore.Prelude.Lists.{length, drop, drop-append}
use fxcore.Prelude.Text.{Text, starts, index, next}

-- The code point `c` is not in the text.
abbrev pub lacks : ℕ → Text → Bool
lacks c [] = true
lacks c (d ∷ s) = if c == d then false else lacks c s

pub starts_self : (sub rest : Text) → starts sub (sub ++ rest) ≡ true
starts_self [] rest = refl
starts_self (c ∷ sub) rest = ground (arith, starts_self sub rest)

-- A match that the end of `pre` cuts is a match with the first code point of what follows inside.
starts-append :
    (sub pre rest : Text) (c : ℕ)
    → lacks c sub ≡ true
    → starts sub (pre ++ c ∷ rest) ≡ true
    → starts sub pre ≡ true
starts-append [] pre rest c l h = refl
starts-append (d ∷ sub) [] rest c l h = ground arith
starts-append (d ∷ sub) (e ∷ pre) rest c l h = ground (arith, starts-append sub pre rest c)

starts-prefix :
    (c : ℕ) (sub pre rest : Text) (e : ℕ)
    → lacks c sub ≡ true
    → starts (c ∷ sub) (e ∷ (pre ++ c ∷ (sub ++ rest))) ≡ true
    → starts (c ∷ sub) (e ∷ pre) ≡ true
starts-prefix c sub pre rest e l h = ground (arith, starts-append sub pre (sub ++ rest) c)

next-none : (o : Option ℕ) → next o ≡ none → o ≡ none
next-none none h = refl
next-none (some n) h = cc

-- The first marker after a text that has none stands at the text's end.
pub index-marker :
    (pre : Text) (c : ℕ) (sub rest : Text)
    → lacks c sub ≡ true
    → index pre (c ∷ sub) ≡ none
    → index (pre ++ c ∷ (sub ++ rest)) (c ∷ sub) ≡ some (length pre)
unfolding index
index-marker [] c sub rest l h = rw (starts_self (c ∷ sub) rest)
index-marker (e ∷ pre) c sub rest l h = ground (
  arith,
  starts-prefix c sub pre rest e,
  next-none (index pre (c ∷ sub)),
  index-marker pre c sub rest,
)

drop-nil : (n : ℕ) → drop {A = ℕ} n [] ≡ []
drop-nil zero = refl
drop-nil (suc n) = refl

pub drop-add : (n m : ℕ) (s : Text) → drop (n + m) s ≡ drop m (drop n s)
drop-add zero m s = ground arith
drop-add (suc n) m [] = rw drop-nil (rw drop-nil)
drop-add (suc n) m (c ∷ s) = rw (add.suc n m) (drop-add n m s)

pub drop-past : (pre sub rest : Text) → drop (length pre + length sub) (pre ++ (sub ++ rest)) ≡ rest
drop-past pre sub rest = rw (drop-add, drop-append pre (sub ++ rest)) (drop-append sub rest)

starts-bound : (sub s : Text) → starts sub s ≡ true → length sub ≤ length s
starts-bound [] s h = omega arith
starts-bound (c ∷ sub) [] h = ground arith
starts-bound (c ∷ sub) (d ∷ s) h = ground (arith, starts-bound sub s)

next-some : (o : Option ℕ) {n : ℕ} → next o ≡ some n → (m : ℕ) × (o ≡ some m) × (n ≡ suc m)
next-some none h = cc
next-some (some m) h = (m, refl, cc)

-- A text found is no longer than what is left from its place.
pub index-bound : (s sub : Text) {n : ℕ} → index s sub ≡ some n → n + length sub ≤ length s
unfolding index
index-bound [] [] h = ground arith
index-bound [] (d ∷ sub) h = ground arith
index-bound (c ∷ s) sub {n} h = elim (Bool-cases (starts sub (c ∷ s))) [
  | inl found ↦ ground (arith, starts-bound sub (c ∷ s))
  | inr later ↦
      let (m, at, e) = next-some (index s sub) (rw later at h) in
      omega (arith, e, index-bound s sub at)
]

starts-longer : (sub s t : Text) → starts sub s ≡ true → starts sub (s ++ t) ≡ true
starts-longer [] s t h = refl
starts-longer (c ∷ sub) [] t h = cc
starts-longer (c ∷ sub) (d ∷ s) t h = ground (arith, starts-longer sub s t)

starts-fits :
    (sub s t : Text) → length sub ≤ length s → starts sub (s ++ t) ≡ true → starts sub s ≡ true
starts-fits [] s t le h = refl
starts-fits (c ∷ sub) [] t le h = absurd (omega arith)
starts-fits (c ∷ sub) (d ∷ s) t le h = ground (arith, starts-fits sub s t)

-- What follows a text does not move the first match in it.
pub index-append : (s sub t : Text) {n : ℕ} → index s sub ≡ some n → index (s ++ t) sub ≡ some n
unfolding index
index-append [] [] [] h = h
index-append [] [] (d ∷ t) h = h
index-append [] (c ∷ sub) t h = ground arith
index-append (c ∷ s) sub t {n} h = elim (Bool-cases (starts sub (c ∷ s))) [
  | inl found ↦ ground (arith, starts-longer sub (c ∷ s) t)
  | inr later ↦
      let (m, at, e) = next-some (index s sub) (rw later at h) in
      let kept = index-append s sub t at in
      ground (arith, index-bound s sub at, starts-fits sub (c ∷ s) t)
]

next-is_some : (o : Option ℕ) → is_some (next o) ≡ is_some o
next-is_some none = refl
next-is_some (some n) = refl

-- A text stands in what is put around it.
pub contains-inside : (pre sub post : Text) → is_some (index (pre ++ (sub ++ post)) sub) ≡ true
unfolding index
contains-inside [] [] [] = refl
contains-inside [] [] (c ∷ post) = refl
contains-inside [] (c ∷ sub) post = rw (starts_self (c ∷ sub) post) refl
contains-inside (c ∷ pre) sub post = elim (Bool-cases (starts sub (c ∷ (pre ++ (sub ++ post))))) [
  | inl here ↦ rw here refl
  | inr later ↦ rw later (next-is_some _ ∙ contains-inside pre sub post)
]
