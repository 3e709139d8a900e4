-- ===== src/Mcp/Retry/Attempts.antt =====
-- How often a request is sent, and which attempt answers.
use fxcore.Prelude.{
  ℕ, zero, suc, ◌+◌, ◌<◌, Bool, true, false, ◌||◌, String, str_eq, eq_iff, List, [], ◌∷◌, ◌++◌,
  Bool-cases, All, ◌≡◌, ◌≢◌, ◌⊎◌, inl, inr, refl, sym, ap, subst, arith,
}
use fxcore.Prelude.Int.{pos}
use fxcore.Prelude.Text.{Text, codes, contains}
use fxcore.Prelude.Text.Search.{contains-inside}
use mathlib.Core.List.{append_assoc}
use fxcore.Mcp.Retry.{
  Outcome, answered, refused, cancelled, Sent, retryable, settle, attempts, do_request, is_success,
  show, matches_any,
}

-- The numbers from `n` on, `k` of them.
abbrev pub count_from : ℕ → ℕ → List ℕ
count_from n zero = []
count_from n (suc k) = n ∷ count_from (suc n) k

module _ (patterns : List String) (net : ℕ → Outcome) (ends : ℕ → Bool) where
  -- The attempts `n` to `n + k - 1` failed in a way that is tried again, and no pause was cut short.
  abbrev pub Retried : ℕ → ℕ → Type 0
  Retried n k = All (λ a. (retryable patterns (net a) ≡ true) × (ends a ≡ false)) (count_from n k)

  -- It settles the request, as there are no more attempts or as it is not to be tried again.
  abbrev pub Final : ℕ → ℕ → Sent → Type 0
  Final left a s = (s.reply ≡ settle (net a)) × ((left ≡ 0) ⊎ (retryable patterns (net a) ≡ false))

  -- It would be tried again, but the context ends in the pause.
  abbrev pub Ended : ℕ → ℕ → Sent → Type 0
  Ended left a s =
      (0 < left)
      × (s.reply ≡ refused cancelled)
      × (retryable patterns (net a) ≡ true)
      × (ends a ≡ true)

  -- The request after `k` retries of the attempt `n`, with `left` allowed: the attempt `a` that comes
  -- then is the last.
  abbrev pub Settled : ℕ → ℕ → Sent → Type 0
  Settled left n s =
      (k : ℕ) × (a : ℕ) × (more : ℕ) × (a ≡ n + k)
      × (left ≡ more + k)
      × Retried n k
      × ((Final more a s × (s.pauses ≡ count_from n k))
          ⊎ (Ended more a s × (s.pauses ≡ count_from n (suc k))))

  abbrev run : ℕ → ℕ → Sent
  run = attempts patterns net ends

  last_attempt :
      (left n : ℕ)
      → retryable patterns (net n) ≡ false
      → run (suc left) n ≡ record { reply = settle (net n); pauses = [] }
  unfolding attempts
  last_attempt left n e = rw (e, attempts) refl

  pause_ended :
      (left n : ℕ)
      → retryable patterns (net n) ≡ true
      → ends n ≡ true
      → run (suc left) n ≡ record { reply = refused cancelled; pauses = n ∷ [] }
  unfolding attempts
  pause_ended left n e g = rw (e, g, attempts) refl

  paused :
      (left n : ℕ)
      → retryable patterns (net n) ≡ true
      → ends n ≡ false
      → run (suc left) n ≡ record (run left (suc n)) { pauses = n ∷ (run left (suc n)).pauses }
  unfolding attempts
  paused left n e g = rw (e, g, attempts) refl

  further :
      (left n : ℕ)
      → (retryable patterns (net n) ≡ true) × (ends n ≡ false)
      → (s : Sent) → Settled left (suc n) s
      → Settled (suc left) n (record s { pauses = n ∷ s.pauses })
  further left n again s (k, a, more, ea, el, retried, inl (final, p)) =
      (suc k, a, more, omega arith, omega arith, (again, retried), inl (final, ap (◌∷◌ n) p))
  further left n again s (k, a, more, ea, el, retried, inr (ended, p)) =
      (suc k, a, more, omega arith, omega arith, (again, retried), inr (ended, ap (◌∷◌ n) p))

  attempts-Settled : (left n : ℕ) → Settled left n (run left n)
  attempts-Settled zero n =
      unfold attempts in (0, n, 0, omega arith, omega arith, tt, inl ((refl, inl refl), refl))
  attempts-Settled (suc left) n = elim (Bool-cases (retryable patterns (net n))) [
    | inr no_more ↦
        subst (Settled (suc left) n) (sym (last_attempt left n no_more))
          (0, n, suc left, omega arith, omega arith, tt, inl ((refl, inr no_more), refl))
    | inl again ↦ elim (Bool-cases (ends n)) [
      | inl ended ↦ subst (Settled (suc left) n) (sym (pause_ended left n again ended)) (
        0,
        n,
        suc left,
        omega arith,
        omega arith,
        tt,
        inr ((omega arith, refl, again, ended), refl),
      )
      | inr goes_on ↦
          subst (Settled (suc left) n) (sym (paused left n again goes_on))
            (further left n (again, goes_on) _ (attempts-Settled left (suc n)))
    ]
  ]

  -- With a key, and a bound of `m` retries, the request ends within `m + 1` attempts. Each attempt but
  -- the last failed in a way that is tried again, and its pause, of as many units as its number, was
  -- not cut short. The last one settles the reply, and no attempt is left or it is not one to try
  -- again; or, if it is, the context ended in the pause after it, and the reply is the context's error.
  pub do_request-Settled :
      (api_key : String) (m : ℕ)
      → api_key ≢ ""
      → Settled m 1 (do_request patterns net ends api_key (pos m))
  unfolding do_request
  do_request-Settled api_key m h =
      let key : str_eq api_key "" ≡ false = ground (arith, eq_iff api_key "") in
      rw key (attempts-Settled m 1)

or_true : (b : Bool) → (b || true) ≡ true
or_true true = refl
or_true false = refl

matches_any-mem :
    (msg : Text) (ps : List String) (p : String) (qs : List String)
    → contains msg (codes p) ≡ true
    → matches_any msg (ps ++ p ∷ qs) ≡ true
matches_any-mem msg [] p qs h = rw h refl
matches_any-mem msg (q ∷ ps) p qs h =
    rw (matches_any-mem msg ps p qs h) (or_true (contains msg (codes q)))

regroup : (a b c d e : Text) → (a ++ (b ++ (c ++ d))) ++ e ≡ a ++ (b ++ (c ++ (d ++ e)))
regroup a b c d e = simp append_assoc

-- An answer outside 2xx, of whatever status, is tried again if its body has one of the patterns in
-- it.
pub retried_for_body :
    (ps qs : List String) (p : String) (status : ℕ) (before after : Text)
    → is_success status ≡ false
    → retryable (ps ++ p ∷ qs) (answered status (before ++ (codes p ++ after))) ≡ true
unfolding retryable
retried_for_body ps qs p status before after h =
    let start = codes "mcp: status " in
    let sep = codes ": " in
    let found =
      subst (λ (t : Text). contains t (codes p) ≡ true)
        (regroup start (show status) sep before (codes p ++ after))
        (contains-inside (start ++ (show status ++ (sep ++ before))) (codes p) after) in
    rw h (matches_any-mem _ ps p qs found)
