-- ===== src/Mcp/Context/Kept.antt =====
-- What the guard keeps.
use fxcore.Prelude.{
  ℕ, zero, suc, ◌+◌, ◌-◌, ◌≤◌, ◌<◌, List, [], ◌∷◌, ◌++◌, ltb, leb, Bool-cases, length, last,
  last-cons, ◌≡◌, ◌⊎◌, inl, inr, refl, sym, ap, subst, ◌∙◌, arith,
}
use fxcore.Prelude.Int.{pos}
use fxcore.Mcp.Context.{
  Message, is_system, estimate_tokens, total_tokens, systems, others, drop_oldest,
  truncate_to_max_context,
}

total_tokens-append :
    (xs ys : List Message) → total_tokens (xs ++ ys) ≡ total_tokens xs + total_tokens ys
unfolding total_tokens
total_tokens-append [] ys = omega arith
total_tokens-append (x ∷ xs) ys = omega (arith, total_tokens-append xs ys)

-- What is kept of a list is its end, and the newest message dropped would not have fitted.
abbrev pub EndOf : ℕ → ℕ → List Message → List Message → Type 0
EndOf max base kept ms =
    (ms ≡ kept)
    ⊎ ((dropped : List Message) × (m : Message) × (ms ≡ dropped ++ m ∷ kept)
        × (max < base + total_tokens (m ∷ kept)))

longer :
    (max base : ℕ) (m n : Message) (kept ms : List Message)
    → max < base + total_tokens (m ∷ n ∷ ms)
    → EndOf max base kept (n ∷ ms)
    → EndOf max base kept (m ∷ n ∷ ms)
longer max base m n kept ms over (inl e) =
    inr
      ([], m, ap (◌∷◌ m) e, subst (λ (l : List Message). max < base + total_tokens (m ∷ l)) e over)
longer max base m n kept ms over (inr (dropped, d, e, h)) = inr (m ∷ dropped, d, ap (◌∷◌ m) e, h)

-- The loop's total is that of a fixed part and of what is left.
drop_oldest-EndOf :
    (max base total : ℕ) (ms : List Message)
    → total ≡ base + total_tokens ms
    → EndOf max base (drop_oldest max total ms) ms
unfolding drop_oldest
drop_oldest-EndOf max base total [] e = inl refl
drop_oldest-EndOf max base total (m ∷ []) e = inl refl
drop_oldest-EndOf max base total (m ∷ n ∷ ms) e = elim (Bool-cases (ltb max total)) [
  | inl over ↦
      let left : total - estimate_tokens m ≡ base + total_tokens (n ∷ ms) =
        unfold total_tokens in omega arith in
      rw over (
        longer max base m n _ ms (ground arith)
          (drop_oldest-EndOf max base (total - estimate_tokens m) (n ∷ ms) left))
  | inr fits ↦ rw fits (inl refl)
]

drop_oldest-fits :
    (max base total : ℕ) (ms : List Message)
    → total ≡ base + total_tokens ms
    → (base + total_tokens (drop_oldest max total ms) ≤ max)
      ⊎ (length (drop_oldest max total ms) ≤ 1)
unfolding drop_oldest
drop_oldest-fits max base total [] e = inr (omega arith)
drop_oldest-fits max base total (m ∷ []) e = inr (omega arith)
drop_oldest-fits max base total (m ∷ n ∷ ms) e = elim (Bool-cases (ltb max total)) [
  | inl over ↦
      let left : total - estimate_tokens m ≡ base + total_tokens (n ∷ ms) =
        unfold total_tokens in omega arith in
      rw over (drop_oldest-fits max base (total - estimate_tokens m) (n ∷ ms) left)
  | inr fits ↦ rw fits (inl (ground arith))
]

last-drop_oldest : (max total : ℕ) (ms : List Message) → last (drop_oldest max total ms) ≡ last ms
unfolding drop_oldest
last-drop_oldest max total [] = refl
last-drop_oldest max total (m ∷ []) = refl
last-drop_oldest max total (m ∷ n ∷ ms) = elim (Bool-cases (ltb max total)) [
  | inl over ↦
      rw over (last-drop_oldest max (total - estimate_tokens m) (n ∷ ms) ∙ sym (last-cons m n ms))
  | inr fits ↦ rw fits refl
]

total_tokens-split :
    (ms : List Message) → total_tokens (systems ms) + total_tokens (others ms) ≡ total_tokens ms
unfolding total_tokens
total_tokens-split [] = refl
total_tokens-split (m ∷ ms) =
    let ih = total_tokens-split ms in
    elim (Bool-cases (is_system m)) [
      | inl s ↦ rw s (omega (arith, ih))
      | inr s ↦ rw s (omega (arith, ih))
    ]

-- What is left of a conversation that is over the bound: the system messages, in order, and behind
-- them the end of the other messages.
abbrev pub Cut : ℕ → List Message → List Message → Type 0
Cut max ms result =
    (kept : List Message) × (result ≡ systems ms ++ kept)
    × EndOf max (total_tokens (systems ms)) kept (others ms)
    × (last kept ≡ last (others ms))
    × ((total_tokens result ≤ max) ⊎ (length kept ≤ 1))

within :
    (max : ℕ) (fixed kept : List Message)
    → (total_tokens fixed + total_tokens kept ≤ max) ⊎ (length kept ≤ 1)
    → (total_tokens (fixed ++ kept) ≤ max) ⊎ (length kept ≤ 1)
within max fixed kept (inl h) = inl (omega (arith, total_tokens-append fixed kept))
within max fixed kept (inr h) = inr h

cut_lem :
    (max : ℕ) (ms : List Message)
    → Cut max ms (
        systems ms
        ++ drop_oldest max (total_tokens (systems ms) + total_tokens (others ms)) (others ms))
cut_lem max ms =
    let base = total_tokens (systems ms) in
    let total = base + total_tokens (others ms) in
    let kept = drop_oldest max total (others ms) in
    (
      kept,
      refl,
      drop_oldest-EndOf max base total (others ms) refl,
      last-drop_oldest max total (others ms),
      within max (systems ms) kept (drop_oldest-fits max base total (others ms) refl),
    )

-- Under a bound above 0, a conversation within it stays as it is. One above it keeps all its system
-- messages, followed by the newest of the others: the very newest is kept, if there is one, the
-- result is within the bound unless at most that one is left, and one message more would have been
-- over it.
pub truncate_lem :
    (ms : List Message) (max : ℕ)
    → 0 < max
    → ((total_tokens ms ≤ max) × (truncate_to_max_context ms (pos max) ≡ ms))
      ⊎ ((max < total_tokens ms) × Cut max ms (truncate_to_max_context ms (pos max)))
unfolding truncate_to_max_context
truncate_lem ms zero h = absurd (omega arith)
truncate_lem [] (suc max) h = inl (unfold total_tokens in omega arith, refl)
truncate_lem (m ∷ ms) (suc max) h =
    let all = m ∷ ms in
    let base = total_tokens (systems all) in
    let total = base + total_tokens (others all) in
    let split = total_tokens-split all in
    elim (Bool-cases (leb total (suc max))) [
      | inl fits ↦ inl (ground arith, rw fits refl)
      | inr over ↦ inr (ground arith, rw over (cut_lem (suc max) all))
    ]
