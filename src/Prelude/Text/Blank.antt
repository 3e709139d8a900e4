-- ===== src/Prelude/Text/Blank.antt =====
-- A text that trims to nothing is one of spaces.
use mathlib.Core.Path.{◌≡◌, refl, sym, ap, subst}
use mathlib.Core.Bool.{false}
use mathlib.Core.Logic.{◌≢◌, ◌⊎◌, inl, inr, ◌↔◌}
use mathlib.Core.List.{[], ◌∷◌, ◌++◌, reverse, reverse-cons, reverse-reverse}
use fxcore.Prelude.Tests.{Bool-cases}
use fxcore.Prelude.Text.{Text, is_space, trim_left, trim_space}

-- Some code point is not a space.
abbrev pub HasInk : Text → Type 0
HasInk [] = ⊥
HasInk (c ∷ s) = (is_space c ≡ false) ⊎ HasInk s

ink-left : (s t : Text) → HasInk s → HasInk (s ++ t)
ink-left [] t h = absurd h
ink-left (c ∷ s) t (inl h) = inl h
ink-left (c ∷ s) t (inr h) = inr (ink-left s t h)

ink-right : (s t : Text) → HasInk t → HasInk (s ++ t)
ink-right [] t h = h
ink-right (c ∷ s) t h = inr (ink-right s t h)

ink-reverse : (s : Text) → HasInk s → HasInk (reverse s)
ink-reverse [] h = absurd h
ink-reverse (c ∷ s) (inl h) =
    subst HasInk (sym (reverse-cons c s)) (ink-right (reverse s) (c ∷ []) (inl h))
ink-reverse (c ∷ s) (inr h) =
    subst HasInk (sym (reverse-cons c s)) (ink-left (reverse s) (c ∷ []) (ink-reverse s h))

trim_left-ink : (s : Text) → HasInk s → HasInk (trim_left s)
unfolding trim_left
trim_left-ink [] h = h
trim_left-ink (c ∷ s) (inl h) = rw h (inl h)
trim_left-ink (c ∷ s) (inr h) = elim (Bool-cases (is_space c)) [
  | inl e ↦ rw e (trim_left-ink s h)
  | inr e ↦ rw e (inl e)
]

ink-trim_left : (s : Text) → trim_left s ≢ [] → HasInk s
unfolding trim_left
ink-trim_left [] h = h refl
ink-trim_left (c ∷ s) h = elim (Bool-cases (is_space c)) [
  | inl e ↦ inr (ink-trim_left s (rw e at h))
  | inr e ↦ inl e
]

HasInk-ne-nil : (s : Text) → HasInk s → s ≢ []
HasInk-ne-nil [] h e = h
HasInk-ne-nil (c ∷ s) h e = cc

-- `strings.TrimSpace(s) != ""`
pub trim_space_iff : (s : Text) → (trim_space s ≢ []) ↔ HasInk s
trim_space_iff s =
    let back = λ (t : Text) (h : HasInk (reverse t)).
      subst HasInk (reverse-reverse t) (ink-reverse (reverse t) h) in
    (
      λ h. ink-trim_left s (HasInk-ne-nil _ (back _ (ink-trim_left _ (λ e. h (ap reverse e))))),
      λ h. HasInk-ne-nil _ (ink-reverse _ (trim_left-ink _ (ink-reverse _ (trim_left-ink s h)))),
    )
