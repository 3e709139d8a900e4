-- ===== src/Kernel/Parse/Strip.antt =====
-- The loop that takes the reasoning out ends, and where it ends no block is left.
use fxcore.Prelude.{
  ℕ, zero, suc, ◌+◌, ◌≤◌, ◌<◌, none, some, [], ◌∷◌, ◌++◌, length, length-append, take, drop,
  length-take, length-drop, take-append, Option-cases, inl, inr, ◌≡◌, refl, sym, subst, ◌∙◌, arith,
  lt→ltb,
}
use fxcore.Prelude.Text.{Text, codes, index}
use fxcore.Prelude.Text.Search.{index-bound, index-marker, drop-past}
use mathlib.Core.Path.{ap₂}
use mathlib.Core.List.{append_assoc}
use fxcore.Kernel.Parse.{strip_once, strip_loop, strip_reasoning, reasoning_tag, reasoning_end}

-- What is left of a text of `n` code points, without those from `s` to the end of a marker at `e`.
cut_shorter :
    (body : Text) (s e k : ℕ)
    → s < e
    → e + k ≤ length body
    → length (take s body ++ drop (e + k) body) < length body
cut_shorter body s e k lt within = omega (
  arith,
  length-append (take s body) (drop (e + k) body),
  length-take s body,
  length-drop (e + k) body,
)

strip_once-shorter : (body : Text) {b : Text} → strip_once body ≡ some b → length b < length body
unfolding strip_once
strip_once-shorter body h = elim (Option-cases (index body reasoning_tag)) [
  | inl p ↦ cc (p, h)
  | inr (s, p) ↦ elim (Option-cases (index body reasoning_end)) [
    | inl q ↦ ground (arith, p, q)
    | inr (e, q) ↦ ground (arith, cut_shorter body s e 12, index-bound body reasoning_end q)
  ]
]

strip_loop-done :
    (fuel : ℕ) (body : Text) → length body ≤ fuel → strip_once (strip_loop fuel body) ≡ none
unfolding strip_loop
strip_loop-done zero [] h = unfold strip_once index in refl
strip_loop-done zero (c ∷ body) h = absurd (omega arith)
strip_loop-done (suc fuel) body h = elim (Option-cases (strip_once body)) [
  | inl e ↦ rw (e, strip_loop) e
  | inr (b, e) ↦
      let shorter = strip_once-shorter body e in
      rw (e, strip_loop) (strip_loop-done fuel b (omega arith))
]

strip_loop-fuel :
    (fuel more : ℕ) (body : Text)
    → length body ≤ fuel
    → length body ≤ more
    → strip_loop fuel body ≡ strip_loop more body
unfolding strip_loop
strip_loop-fuel zero zero body p q = refl
strip_loop-fuel zero (suc more) [] p q = unfold strip_once index in refl
strip_loop-fuel (suc fuel) zero [] p q = unfold strip_once index in refl
strip_loop-fuel zero (suc more) (c ∷ body) p q = absurd (omega arith)
strip_loop-fuel (suc fuel) zero (c ∷ body) p q = absurd (omega arith)
strip_loop-fuel (suc fuel) (suc more) body p q = elim (Option-cases (strip_once body)) [
  | inl e ↦ rw (e, strip_loop) refl
  | inr (b, e) ↦
      let shorter = strip_once-shorter body e in
      rw (e, strip_loop) (strip_loop-fuel fuel more b (omega arith) (omega arith))
]

-- The rounds end: with fuel for the text's length or more the result is the same, and it is a text
-- from which a further round would take nothing.
pub strip_total :
    (fuel : ℕ) (raw : Text)
    → length raw ≤ fuel
    → (strip_loop fuel raw ≡ strip_reasoning raw) × (strip_once (strip_reasoning raw) ≡ none)
unfolding strip_reasoning
strip_total fuel raw h = (
  strip_loop-fuel fuel (length raw) raw h (omega arith),
  strip_loop-done (length raw) raw (omega arith),
)

strip_once_lem :
    (raw : Text) (s e : ℕ)
    → index raw reasoning_tag ≡ some s
    → index raw reasoning_end ≡ some e
    → s < e
    → strip_once raw ≡ some (take s raw ++ drop (e + 12) raw)
unfolding strip_once
strip_once_lem raw s e p q lt = rw (p, q, lt→ltb s e lt, strip_once) refl

regroup : (a b c d : Text) → (a ++ (b ++ c)) ++ d ≡ a ++ (b ++ (c ++ d))
regroup a b c d = simp append_assoc

-- A round that finds a block.
strip_once-block :
    (pre thought post : Text)
    → index pre reasoning_tag ≡ none
    → index (pre ++ (reasoning_tag ++ thought)) reasoning_end ≡ none
    → strip_once (pre ++ (reasoning_tag ++ (thought ++ (reasoning_end ++ post))))
      ≡ some (pre ++ post)
strip_once-block pre thought post p q =
    let whole : Text = pre ++ (reasoning_tag ++ thought) in
    let opened =
      index-marker pre b'<' (codes "reasoning>") (thought ++ (reasoning_end ++ post)) refl p in
    let closed = index-marker whole b'<' (codes "/reasoning>") post refl q in
    let same = regroup pre reasoning_tag thought (reasoning_end ++ post) in
    strip_once_lem _ (length pre) (length whole) opened
      (subst (λ (t : Text). index t reasoning_end ≡ some (length whole)) same closed)
      (omega (arith, length-append pre (reasoning_tag ++ thought)))
    ∙ ap₂ (λ (a b : Text). some (a ++ b)) (take-append pre _)
        (subst (λ (t : Text). drop (length whole + 12) t ≡ post) same
          (drop-past whole reasoning_end post))

strip_loop-suc :
    (fuel : ℕ) (body : Text) {b : Text}
    → strip_once body ≡ some b
    → strip_loop (suc fuel) body ≡ strip_loop fuel b
unfolding strip_loop
strip_loop-suc fuel body e = rw (e, strip_loop) refl

-- A closed block is taken out, and the rest is read as if it had not been there.
pub strip-block :
    (pre thought post : Text)
    → index pre reasoning_tag ≡ none
    → index (pre ++ (reasoning_tag ++ thought)) reasoning_end ≡ none
    → strip_reasoning (pre ++ (reasoning_tag ++ (thought ++ (reasoning_end ++ post))))
      ≡ strip_reasoning (pre ++ post)
unfolding strip_reasoning
strip-block pre thought post p q =
    let raw : Text = pre ++ (reasoning_tag ++ (thought ++ (reasoning_end ++ post))) in
    let round = strip_once-block pre thought post p q in
    let shorter = strip_once-shorter raw round in
    sym (strip_loop-fuel (suc (length raw)) (length raw) raw (omega arith) (omega arith))
    ∙ strip_loop-suc (length raw) raw round
    ∙ (strip_loop-fuel (length raw) (length (pre ++ post)) (pre ++ post) (omega arith)
        (omega arith))
