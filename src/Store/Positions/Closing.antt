-- ===== src/Store/Positions/Closing.antt =====
-- `ClosePosition` of internal/store/store.go.
use fxcore.Prelude.{
  ℕ, ◌≤◌, ◌≡◌, ◌≢◌, refl, ap, ◌∙◌, not, inl, inr, String, str_eq, eq_iff, Bool, true, false, Option,
  none, some, List, [], ◌∷◌, arith, if◌then◌else◌, is_some, Bool-cases, count,
}
use fxcore.Model.Trader.{Position}
use fxcore.Store.{Store}
use fxcore.Store.Positions.{
  find_position, get_position, closed, close_in, close_position, is_open_of,
}

module _ {F : Type 0} where
  -- The id has found an open position.
  abbrev pub closable : Option (Position F) → Bool
  closable none = false
  closable (some p) = not (is_some p.closed_at)

  -- What closing answers, by the position that the id finds.
  abbrev pub Answers : ℕ → F → Option (Position F) → Option (Position F) × Bool → Type 0
  Answers now pnl none r = r ≡ (none, false)
  Answers now pnl (some p) r =
      r ≡ (if is_some p.closed_at then (some p, false) else (some (closed now pnl p), true))

  close_in-Answers :
      (now : ℕ) (id : String) (pnl : F) (ps : List (Position F))
      → let (p, done, ps') = close_in now id pnl ps in
        Answers now pnl (find_position id ps) (p, done)
        × (find_position id ps' ≡ p)
        × ((j : String) → j ≢ id → find_position j ps' ≡ find_position j ps)
  unfolding close_in
  close_in-Answers now id pnl [] = (refl, refl, λ j ne. refl)
  close_in-Answers now id pnl (p ∷ ps) = elim (Bool-cases (str_eq p.id id)) [
    | inl e ↦ elim (Bool-cases (is_some p.closed_at)) [
      | inl c ↦ rw (e, c) (refl, rw e, λ j ne. refl)
      | inr c ↦ rw (e, c) (refl, rw e, λ j ne. ground (arith, eq_iff p.id id, eq_iff p.id j))
    ]
    | inr e ↦
        let (a, same, others) = close_in-Answers now id pnl ps in
        rw e (a, rw e same, λ j ne. ground (arith, others j))
  ]

  -- Closing by an id answers with the position as it is now, and says whether it has closed it: it
  -- does so just if there is one and it was open. The id finds the answered position from then on,
  -- and every other id finds what it found.
  pub close_position_lem :
      (now : ℕ) (id : String) (pnl : F) (s : Store F)
      → let (p, done, s') = close_position now id pnl s in
        Answers now pnl (get_position id s) (p, done)
        × (get_position id s' ≡ p)
        × ((j : String) → j ≢ id → get_position j s' ≡ get_position j s)
  unfolding close_position get_position
  close_position_lem now id pnl s = close_in-Answers now id pnl s.positions

  answered_closed :
      (now : ℕ) (pnl : F) (o p : Option (Position F)) (done : Bool)
      → Answers now pnl o (p, done)
      → (t : ℕ) (x : F) (q : Option (Position F)) (again : Bool) → Answers t x p (q, again)
      → (q ≡ p) × (again ≡ false)
  answered_closed now pnl none p done a t x q again b =
      let e : p ≡ none = ap (λ r. r.0) a in
      let b' : Answers t x none (q, again) = rw e at b in rw e (ap (λ r. r.0) b', ap (λ r. r.1) b')
  answered_closed now pnl (some o) p done a t x q again b =
      elim (Bool-cases (is_some o.closed_at)) [
        | inl c ↦
            let e : p ≡ some o = ap (λ r. r.0) (rw c at a) in
            let b' = rw c at (rw e at b) in rw e (ap (λ r. r.0) b', ap (λ r. r.1) b')
        | inr c ↦
            let e : p ≡ some (closed now pnl o) = ap (λ r. r.0) (rw c at a) in
            let b' = rw e at b in rw e (ap (λ r. r.0) b', ap (λ r. r.1) b')
      ]

  -- A second attempt closes nothing and answers with the same position, whatever its amount.
  pub close_position_once :
      (now t : ℕ) (id : String) (pnl x : F) (s : Store F)
      → let (p, done, s') = close_position now id pnl s in
        let (q, again, s'') = close_position t id x s' in (q ≡ p) × (again ≡ false)
  close_position_once now t id pnl x s =
      let (a, same, others) = close_position_lem now id pnl s in
      let (p, done, s') = close_position now id pnl s in
      let (b, same', others') = close_position_lem t id x s' in
      let (q, again, s'') = close_position t id x s' in
      answered_closed now pnl (get_position id s) p done a t x q again (rw same at b)

  close_in_refused :
      (now : ℕ) (id : String) (pnl : F) (ps : List (Position F))
      → closable (find_position id ps) ≡ false
      → close_in now id pnl ps ≡ (find_position id ps, false, ps)
  unfolding close_in
  close_in_refused now id pnl [] h = refl
  close_in_refused now id pnl (p ∷ ps) h = elim (Bool-cases (str_eq p.id id)) [
    | inl e ↦ elim (Bool-cases (is_some p.closed_at)) [
      | inl c ↦ rw (e, c) refl
      | inr c ↦ ground (arith, h, e, c)
    ]
    | inr e ↦ rw e (rw (close_in_refused now id pnl ps (ground (arith, h, e))) refl)
  ]

  -- A position that is not there or closed before is answered, and nothing changes.
  pub close_position_refused :
      (now : ℕ) (id : String) (pnl : F) (s : Store F)
      → closable (get_position id s) ≡ false
      → close_position now id pnl s ≡ (get_position id s, false, s)
  unfolding close_position get_position
  close_position_refused now id pnl s h = rw (close_in_refused now id pnl s.positions h) refl

  -- An open position is closed.
  pub close_position_open :
      (now : ℕ) (id : String) (pnl : F) (s : Store F) (p : Position F)
      → get_position id s ≡ some p
      → is_some p.closed_at ≡ false
      → let (q, done, s') = close_position now id pnl s in
        (q ≡ some (closed now pnl p))
        × (done ≡ true)
        × (get_position id s' ≡ some (closed now pnl p))
  close_position_open now id pnl s p found still =
      let (a, same, others) = close_position_lem now id pnl s in
      let (q, done, s') = close_position now id pnl s in
      let b : ◌≡◌ {A = Option (Position F) × Bool} (q, done) (some (closed now pnl p), true) =
        rw still at (rw found at a) in
      (ap (λ r. r.0) b, ap (λ r. r.1) b, same ∙ ap (λ r. r.0) b)

  close_in-count :
      (q : Position F → Bool) (now : ℕ) (id : String) (pnl : F) (ps : List (Position F))
      → ((p : Position F) → q (closed now pnl p) ≡ false)
      → count q (close_in now id pnl ps).2 ≤ count q ps
  unfolding close_in
  close_in-count q now id pnl [] h = omega arith
  close_in-count q now id pnl (p ∷ ps) h = elim (Bool-cases (str_eq p.id id)) [
    | inl e ↦ elim (Bool-cases (is_some p.closed_at)) [
      | inl c ↦ rw (e, c) (omega arith)
      | inr c ↦ rw (e, c) (ground (arith, h p))
    ]
    | inr e ↦ rw e (omega (arith, close_in-count q now id pnl ps h))
  ]

  -- Closing adds to no count of positions in which a closed one does not count.
  pub close_position-counts :
      (q : Position F → Bool) (now : ℕ) (id : String) (pnl : F) (s : Store F)
      → ((p : Position F) → q (closed now pnl p) ≡ false)
      → count q (close_position now id pnl s).2.positions ≤ count q s.positions
  unfolding close_position
  close_position-counts q now id pnl s h = close_in-count q now id pnl s.positions h

  -- Closing never opens a position.
  pub close_position-count :
      (t : String) (now : ℕ) (id : String) (pnl : F) (s : Store F)
      → count (is_open_of t) (close_position now id pnl s).2.positions
        ≤ count (is_open_of t) s.positions
  close_position-count t now id pnl s =
      close_position-counts (is_open_of t) now id pnl s (λ p. ground arith)
