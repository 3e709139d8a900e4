-- ===== src/Debate/Rounds/Agenda.antt =====
-- Who speaks in a debate and in which order, and what votes are entered.
use fxcore.Prelude.{
  ℕ, zero, suc, ◌+◌, ◌≡◌, refl, sym, ap, ◌∙◌, Bool, true, false, String, List, [], ◌∷◌, ◌++◌, map,
  Bool-cases, inl, inr,
}
use mathlib.Core.List.{append_assoc, append-nil, map-append}
use fxcore.Debate.Ballot.{Participant}
use fxcore.Debate.Rounds.{
  DebateMessage, Floor, Setting, round_end, told, looked, spoken, speak_all, opened_round, rounds,
}

-- A round in which each participant speaks once, in order; and the rounds from one on.
abbrev pub turns_of : ℕ → List Participant → List (ℕ × String)
turns_of round ps = map (λ (p : Participant). (round, p.id)) ps

abbrev pub agenda : List Participant → ℕ → ℕ → List (ℕ × String)
agenda ps round zero = []
agenda ps round (suc left) = turns_of round ps ++ agenda ps (round + 1) left

-- The round and the speaker of each message.
abbrev pub held : List DebateMessage → List (ℕ × String)
held ms = map (λ (m : DebateMessage). (m.round, m.participant_id)) ms

module _ {F : Type 0} where
  -- What was to be said is what has been said and a rest, which is nothing if the loop goes on.
  abbrev pub Covers : Floor F → List (ℕ × String) → Bool × Floor F → Type 0
  Covers s due x =
      (rest : List (ℕ × String)) × (held x.1.messages ++ rest ≡ held s.messages ++ due)
      × (x.0 ≡ true → rest ≡ [])

  -- Two stretches that follow one another.
  Covers-append :
      (s s1 : Floor F) (due due' : List (ℕ × String)) (x : Bool × Floor F)
      → held s1.messages ++ [] ≡ held s.messages ++ due
      → Covers s1 due' x
      → Covers s (due ++ due') x
  Covers-append s s1 due due' x here (rest, same, over) = (
    rest,
    same
        ∙ ap (λ l. l ++ due') (sym (append-nil (held s1.messages)) ∙ here)
        ∙ append_assoc (held s.messages) due due',
    over,
  )

  Covers-cut :
      (s s1 : Floor F) (due due' : List (ℕ × String)) (go : Bool)
      → Covers s due (go, s1)
      → Covers s (due ++ due') (false, s1)
  Covers-cut s s1 due due' go (rest, same, over) = (
    rest ++ due',
    sym (append_assoc (held s1.messages) rest due')
        ∙ ap (λ l. l ++ due') same
        ∙ append_assoc (held s.messages) due due',
    λ h. cc,
  )

module _ {F M : Type 0} where
  speak_all-Covers :
      (e : Setting F M) (id symbol : String) (round : ℕ) (ps : List Participant) (s : Floor F)
      → Covers s (turns_of round ps) (speak_all e id symbol round ps s)
  unfolding speak_all
  speak_all-Covers e id symbol round [] s = ([], refl, λ h. refl)
  speak_all-Covers e id symbol round (p ∷ ps) s = elim (Bool-cases (e.cancelled s.looks)) [
    | inl stop ↦ simp stop (turns_of round (p ∷ ps), refl, λ h. cc)
    | inr on ↦
        let (rest, same, over) =
          speak_all-Covers e id symbol round ps (spoken e id symbol round p (looked s)) in
        simp on (rest, same ∙ simp (map-append, append_assoc), over)
  ]

  pub rounds-Covers :
      (e : Setting F M) (id symbol : String) (ps : List Participant) (round left : ℕ) (s : Floor F)
      → Covers s (agenda ps round left) (rounds e id symbol ps round left s)
  unfolding rounds
  rounds-Covers e id symbol ps round zero s = ([], refl, λ h. refl)
  rounds-Covers e id symbol ps round (suc left) s =
      let s0 = opened_round e id round s in
      let x = speak_all e id symbol round ps s0 in
      let (rest, same, over) = speak_all-Covers e id symbol round ps s0 in
      elim (Bool-cases (e.cancelled s.looks)) [
        | inl stop ↦ simp stop (agenda ps round (suc left), refl, λ h. cc)
        | inr on ↦ elim (Bool-cases x.0) [
          | inl go ↦
              simp (on, go)
                (Covers-append s (told (round_end round) x.1) (turns_of round ps)
                  (agenda ps (round + 1) left)
                  (rounds e id symbol ps (round + 1) left (told (round_end round) x.1))
                  (ap (λ l. held x.1.messages ++ l) (sym (over go)) ∙ same)
                  (rounds-Covers e id symbol ps (round + 1) left (told (round_end round) x.1)))
          | inr cut ↦
              simp (on, cut)
                (Covers-cut s x.1 (turns_of round ps) (agenda ps (round + 1) left) x.0
                  (rest, same, over))
        ]
      ]
