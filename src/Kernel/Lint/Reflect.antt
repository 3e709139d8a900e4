-- ===== src/Kernel/Lint/Reflect.antt =====
-- Boolean conditions as propositions: from what a test's `true` means to what its `false` does.
use fxcore.Prelude.{
  Bool, true, false, ◌&&◌, ◌||◌, not, String, eq_iff, List, [], ◌∷◌, select, Bool-cases, All, ◌≡◌,
  ◌↔◌, ◌⊎◌, inl, inr, refl, sym, ◌∙◌, arith,
}
use mathlib.Core.Bool.{false≢true}
use fxcore.Kernel.Lint.{one_of, is_empty}

pub not_iff {ℓ} : {P : Type ℓ} (b : Bool) → (b ≡ true) ↔ P → (not b ≡ false) ↔ P
not_iff true e = (λ h. e.0 refl, λ p. refl)
not_iff false e = (λ h. absurd (false≢true (sym h)), λ p. absurd (false≢true (e.1 p)))

pub false_iff {ℓ} : {P : Type ℓ} (b : Bool) → (b ≡ true) ↔ P → (b ≡ false) ↔ (¬ P)
false_iff true e = (λ h. absurd (false≢true (sym h)), λ n. absurd (n (e.0 refl)))
false_iff false e = (λ h p. false≢true (e.1 p), λ n. refl)

module _ {ℓ κ} {P : Type ℓ} {Q : Type κ} where
  pub and_iff : (a b : Bool) → (a ≡ true) ↔ P → (b ≡ true) ↔ Q → (a && b ≡ false) ↔ (P → ¬ Q)
  and_iff true b e g = (λ h p. (false_iff b g).0 h, λ n. (false_iff b g).1 (n (e.0 refl)))
  and_iff false b e g = (λ h p. absurd (false≢true (e.1 p)), λ n. refl)

  pub or_iff : (a b : Bool) → (a ≡ true) ↔ P → (b ≡ true) ↔ Q → (a || b ≡ false) ↔ ((¬ P) × (¬ Q))
  or_iff true b e g = (λ h. absurd (false≢true (sym h)), λ n. absurd (n.0 (e.0 refl)))
  or_iff false b e g =
      (λ h. ((false_iff false e).0 refl, (false_iff b g).0 h), λ n. (false_iff b g).1 n.1)

pub is_empty_iff {ℓ} : {A : Type ℓ} (xs : List A) → (is_empty xs ≡ true) ↔ (xs ≡ [])
is_empty_iff [] = (λ h. refl, λ h. refl)
is_empty_iff (x ∷ xs) = (λ h. cc, λ h. cc)

-- A text is in a list.
abbrev pub OneOf : String → List String → Type 0
OneOf s [] = ⊥
OneOf s (t ∷ ts) = (s ≡ t) ⊎ OneOf s ts

pub one_of_iff : (s : String) (ts : List String) → (one_of s ts ≡ true) ↔ OneOf s ts
one_of_iff s [] = (λ h. cc, λ h. absurd h)
one_of_iff s (t ∷ ts) = grind (arith, eq_iff s t, one_of_iff s ts)

module _ {ℓ κ} {A : Type ℓ} {P : A → Type κ} (p : A → Bool)
    (e : (x : A) → (p x ≡ false) ↔ P x) where
  select-nil : (xs : List A) → (is_empty (select p xs) ≡ true) ↔ All P xs
  select-nil [] = (λ h. tt, λ h. refl)
  select-nil (x ∷ xs) =
      let ih = select-nil xs in
      elim (Bool-cases (p x)) [
        | inl t ↦
            (λ h. absurd (false≢true (rw t at h)), λ h. absurd (false≢true (sym ((e x).1 h.0) ∙ t)))
        | inr n ↦ rw n (λ h. ((e x).0 n, ih.0 h), λ h. ih.1 h.1)
      ]

  -- A list is empty, or nothing in it is picked.
  pub select-none :
      (xs : List A) → (not (is_empty xs) && not (is_empty (select p xs)) ≡ false) ↔ All P xs
  select-none [] = (λ h. tt, λ h. refl)
  select-none (x ∷ xs) = not_iff (is_empty (select p (x ∷ xs))) (select-nil (x ∷ xs))

-- From what the `false` of each side means.
pub neither_iff {ℓ κ} :
    {P : Type ℓ} {Q : Type κ} (a b : Bool)
    → (a ≡ false) ↔ P
    → (b ≡ false) ↔ Q
    → (a || b ≡ false) ↔ (P × Q)
neither_iff true b e g =
    (λ h. absurd (false≢true (sym h)), λ n. absurd (false≢true (sym (e.1 n.0))))
neither_iff false b e g = (λ h. (e.0 refl, g.0 h), λ n. g.1 n.1)
