-- ===== src/Kernel/Parse/Accepted.antt =====
-- Which answers are accepted.
use fxcore.Prelude.{
  ℕ, suc, true, false, Option, none, some, String, eq_iff, List, [], ◌∷◌, All, ◌≡◌, ◌≢◌, ◌↔◌, ◌⊎◌,
  inl, inr, refl, sym, ap, subst, arith,
}
use fxcore.Prelude.Text.{Text, codes, trim_space}
use fxcore.Prelude.Text.Blank.{HasInk, trim_space_iff}
use fxcore.Model.Decision.{DecisionAction}
use fxcore.Kernel.Parse.{
  Json, ParseError, ok, valid_action, is_nil, is_blank, needs_symbol, check_actions,
  array_or_single, decode, verdict, checked, parse_body, parse_decision, extract_decision_body,
  fix_full_width,
}

-- One of the six actions.
abbrev pub IsAction : String → Type 0
IsAction a =
    (a ≡ "open_long")
    ⊎ (a ≡ "open_short")
    ⊎ (a ≡ "close_long")
    ⊎ (a ≡ "close_short")
    ⊎ (a ≡ "hold")
    ⊎ (a ≡ "wait")

valid_action_iff : (a : String) → (valid_action a ≡ true) ↔ IsAction a
valid_action_iff a = grind (
  arith,
  eq_iff a "open_long",
  eq_iff a "open_short",
  eq_iff a "close_long",
  eq_iff a "close_short",
  eq_iff a "hold",
  eq_iff a "wait",
)

is_nil_iff : (t : Text) → (is_nil t ≡ false) ↔ (t ≢ [])
unfolding is_nil
is_nil_iff [] = (λ h e. cc, λ h. absurd (h refl))
is_nil_iff (c ∷ t) = (λ h e. cc, λ h. refl)

is_blank_iff : (s : String) → (is_blank s ≡ false) ↔ HasInk (codes s)
unfolding is_blank
is_blank_iff s = (
  λ h. (trim_space_iff (codes s)).0 ((is_nil_iff _).0 h),
  λ h. (is_nil_iff _).1 ((trim_space_iff (codes s)).1 h),
)

module _ {F : Type 0} where
  -- A known action that names a symbol, unless it is to wait or to hold.
  abbrev pub IsUsable : DecisionAction F → Type 0
  IsUsable a =
      IsAction a.action × (HasInk (codes a.symbol) ⊎ (a.action ≡ "wait") ⊎ (a.action ≡ "hold"))

  needs_symbol_iff :
      (a : DecisionAction F)
      → (needs_symbol a ≡ false)
        ↔ (HasInk (codes a.symbol) ⊎ (a.action ≡ "wait") ⊎ (a.action ≡ "hold"))
  needs_symbol_iff a =
      grind (arith, is_blank_iff a.symbol, eq_iff a.action "wait", eq_iff a.action "hold")

  check_actions-cons :
      (i : ℕ) (a : DecisionAction F) (l : List (DecisionAction F))
      → (check_actions i (a ∷ l) ≡ none) ↔ (
          (valid_action a.action ≡ true)
          × (needs_symbol a ≡ false)
          × (check_actions (suc i) l ≡ none))
  unfolding check_actions
  check_actions-cons i a l = grind arith

  check_actions_iff :
      (i : ℕ) (l : List (DecisionAction F)) → (check_actions i l ≡ none) ↔ All IsUsable l
  check_actions_iff i [] = (λ _. tt, λ _. unfold check_actions in refl)
  check_actions_iff i (a ∷ l) =
      let step = check_actions-cons i a l in
      let act = valid_action_iff a.action in
      let sym = needs_symbol_iff a in
      let tail = check_actions_iff (suc i) l in
      (
        λ h. let (v, n, r) = step.0 h in ((act.0 v, sym.0 n), tail.0 r),
        λ g. step.1 (act.1 g.0.0, sym.1 g.0.1, tail.1 g.1),
      )

  -- The decoder of arrays is asked first, the decoder of one action if that one refuses.
  abbrev pub Reads :
      Option (List (DecisionAction F))
      → Option (DecisionAction F)
      → List (DecisionAction F)
      → Type 0
  Reads o p l = (o ≡ some l) ⊎ ((a : DecisionAction F) × (o ≡ none) × (p ≡ some a) × (l ≡ a ∷ []))

  array_or_single-Reads :
      (o : Option (List (DecisionAction F))) (p : Option (DecisionAction F))
      {l : List (DecisionAction F)}
      → array_or_single o p ≡ some l
      → Reads o p l
  array_or_single-Reads (some r) p h = inl h
  array_or_single-Reads none (some a) h = inr (a, refl, refl, cc)
  array_or_single-Reads none none h = cc

  Reads-array_or_single :
      (o : Option (List (DecisionAction F))) (p : Option (DecisionAction F))
      {l : List (DecisionAction F)}
      → Reads o p l
      → array_or_single o p ≡ some l
  Reads-array_or_single o p (inl h) = rw h refl
  Reads-array_or_single o p (inr (a, h, k, e)) = rw (h, k, e) refl

  abbrev pub Decodes : Json F → Text → List (DecisionAction F) → Type 0
  Decodes json t l = Reads (json.array t) (json.object t) l

  decode_iff :
      (json : Json F) (t : Text) (l : List (DecisionAction F))
      → (decode json t ≡ some l) ↔ Decodes json t l
  unfolding decode
  decode_iff json t l = (array_or_single-Reads _ _, Reads-array_or_single _ _)

  verdict_iff :
      (r l : List (DecisionAction F)) (e : Option ParseError)
      → (verdict r e ≡ ok l) ↔ ((r ≡ l) × (e ≡ none))
  verdict_iff r l none = (λ h. (cc, refl), λ h. cc)
  verdict_iff r l (some e) = (λ h. cc, λ h. cc)

  checked_iff :
      (o : Option (List (DecisionAction F))) (l : List (DecisionAction F))
      → (checked o ≡ ok l) ↔ ((o ≡ some l) × (l ≢ []) × (check_actions 0 l ≡ none))
  checked_iff none l = (λ h. cc, λ h. cc)
  checked_iff (some []) l = (λ h. cc, λ h. absurd (h.1 (cc)))
  checked_iff (some (a ∷ r)) l =
      let v = verdict_iff (a ∷ r) l (check_actions 0 (a ∷ r)) in
      (
        λ h.
            let (same, n) = v.0 h in
            (
              ap some same,
              λ e. cc,
              subst (λ (x : List (DecisionAction F)). check_actions 0 x ≡ none) same n,
            ),
        λ (o, _, n).
            let same : a ∷ r ≡ l = cc in
            v.1 (
              same,
              subst (λ (x : List (DecisionAction F)). check_actions 0 x ≡ none) (sym same) n,
            ),
      )

  parse_body_iff :
      (json : Json F) (body : Text) (l : List (DecisionAction F))
      → (parse_body json body ≡ ok l) ↔ (
          (body ≢ [])
          × (decode json (trim_space (fix_full_width body)) ≡ some l)
          × (l ≢ [])
          × (check_actions 0 l ≡ none))
  unfolding parse_body
  parse_body_iff json [] l = (λ h. cc, λ h. absurd (h.0 refl))
  parse_body_iff json (c ∷ cs) l =
      let decoded = checked_iff (decode json (trim_space (fix_full_width (c ∷ cs)))) l in
      (
        λ h. let (d, n, usable) = decoded.0 h in (λ e. cc, d, n, usable),
        λ (_, d, n, usable). decoded.1 (d, n, usable),
      )

  -- An answer is accepted, as the list of actions `l`, exactly when its body is not empty, the
  -- decoder gives `l` for it with its punctuation repaired and its ends trimmed, `l` is not empty,
  -- and each action of `l` is one of the six and names a symbol unless it is to wait or to hold.
  pub accepted_iff :
      (json : Json F) (raw : Text) (l : List (DecisionAction F))
      → (parse_decision json raw ≡ ok l) ↔ (
          (extract_decision_body raw ≢ [])
          × Decodes json (trim_space (fix_full_width (extract_decision_body raw))) l
          × (l ≢ [])
          × All IsUsable l)
  unfolding parse_decision
  accepted_iff json raw l =
      let body = parse_body_iff json (extract_decision_body raw) l in
      let decoded = decode_iff json _ l in
      let usable = check_actions_iff 0 l in
      (
        λ h. let (b, d, n, c) = body.0 h in (b, decoded.0 d, n, usable.0 c),
        λ (b, d, n, c). body.1 (b, decoded.1 d, n, usable.1 c),
      )
