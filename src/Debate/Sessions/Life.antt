-- ===== src/Debate/Sessions/Life.antt =====
-- The calls on a session, and the end of its loop.
use fxcore.Prelude.{
  ℕ, ◌≡◌, refl, inl, inr, Bool, true, false, ◌&&◌, Option, none, some, String, eq_iff, arith,
  is_some, Bool-cases, Option-cases,
}
use fxcore.Prelude.Dict.{lookup}
use fxcore.Prelude.Dict.Laws.{lookup-insert}
use fxcore.Model.Decision.{is_opening}
use fxcore.Store.Traders.{may_use}
use fxcore.Debate.Votes.{DebateVote}
use fxcore.Debate.Sessions.{
  DebateStatus, Session, World, is_completed, with_status, get_session, refresh, put, execute,
  opens, conclude, synced, stopped, save, cancel, is_active, DebateSession,
}

module _ {F : Type 0} where
  abbrev pub is_executable : Option (Session F) → Bool
  is_executable none = false
  is_executable (some s) = is_completed s.meta.status && opens s.consensus

  -- A debate is executed just if its session is there, completed, and has a consensus to open; if it
  -- is not, nothing changes but what reading the session changes.
  pub execute_lem :
      (now : ℕ) (id trader_id : String) (w : World F)
      → let (e, w') = execute now id trader_id w in
        (is_executable (get_session id w) ≡ true → e ≡ none)
        × (is_executable (get_session id w) ≡ false → (is_some e ≡ true) × (w' ≡ refresh id w))
  unfolding execute
  execute_lem now id trader_id w = elim (Option-cases (get_session id w)) [
    | inl q ↦ rw q (λ h. cc, λ h. (refl, refl))
    | inr (s, q) ↦ elim (Bool-cases (is_completed s.meta.status)) [
      | inr c ↦ rw (q, c) (λ h. cc, λ h. (refl, refl))
      | inl c ↦ elim (Bool-cases (opens s.consensus)) [
        | inl o ↦ rw (q, c, o) (λ h. refl, λ h. cc)
        | inr o ↦ rw (q, c, o) (λ h. cc, λ h. (refl, refl))
      ]
    ]
  ]

  -- The end of a loop whose session the engine holds.
  conclude-found :
      (now : ℕ) (id : String) (consensus : Option (DebateVote F)) (own s : Session F) (w : World F)
      → lookup id w.sessions ≡ some s
      → let w' = conclude now id consensus own w in
        (lookup id w'.sessions
          ≡ some (record (with_status DebateStatus.completed s) { consensus = consensus }))
        × (lookup id w'.records
            ≡ some (record (s.meta) { status = DebateStatus.completed; updated_at = now }))
  unfolding conclude
  conclude-found now id consensus own s w e =
      rw (e, put)
        (
          rw lookup-insert (ground (arith, eq_iff id id)),
          rw lookup-insert (ground (arith, eq_iff id id)),
        )

  refresh-found :
      (id : String) (w : World F) (s : Session F)
      → lookup id w.sessions ≡ some s
      → lookup id (refresh id w).sessions ≡ some (synced (lookup id w.records) s)
  unfolding refresh
  refresh-found id w s p = rw (p, refresh) (rw lookup-insert (ground (arith, eq_iff id id)))

  save-found :
      (now : ℕ) (id : String) (s old : Session F) (w : World F)
      → lookup id w.sessions ≡ some old
      → lookup id (save now id s w).sessions ≡ some s
  save-found now id s old w p = rw (p, put) (rw lookup-insert (ground (arith, eq_iff id id)))

  -- An active debate that its user cancels.
  cancel-eq :
      (now : ℕ) (user_id id : String) (w : World F) (s : Session F) (d : DebateSession)
      → lookup id w.sessions ≡ some s
      → lookup id w.records ≡ some d
      → may_use user_id d.user_id ≡ true
      → is_active d.status ≡ true
      → cancel now user_id id w ≡ (none, save now id (stopped (synced (some d) s)) (refresh id w))
  unfolding cancel get_session
  cancel-eq now user_id id w s d p q mine live = rw q (rw (mine, p) (rw live refl))

  -- A running or voting debate that its user cancels, and whose loop then ends with votes for opening
  -- a position, is executed all the same.
  pub cancelled_executes :
      (t₁ t₂ t₃ : ℕ) (user_id id trader_id : String) (w : World F) (s own : Session F)
      (d : DebateSession) (v : DebateVote F)
      → lookup id w.sessions ≡ some s
      → lookup id w.records ≡ some d
      → may_use user_id d.user_id ≡ true
      → is_active d.status ≡ true
      → is_opening v.action ≡ true
      → let (e, w₁) = cancel t₁ user_id id w in
        (e ≡ none) × ((execute t₃ id trader_id (conclude t₂ id (some v) own w₁)).0 ≡ none)
  unfolding get_session
  cancelled_executes t₁ t₂ t₃ user_id id trader_id w s own d v p q mine live opening =
      let s₁ = stopped (synced (some d) s) in
      let w₁ = save t₁ id s₁ (refresh id w) in
      let there =
        save-found t₁ id s₁ (synced (lookup id w.records) s) (refresh id w)
          (refresh-found id w s p) in
      let (found, recorded) = conclude-found t₂ id (some v) own s₁ w₁ there in
      let w₂ = conclude t₂ id (some v) own w₁ in
      let ready : is_executable (get_session id w₂) ≡ true = rw (found, recorded) opening in
      rw (cancel-eq t₁ user_id id w s d p q mine live)
        (refl, (execute_lem t₃ id trader_id w₂).0 ready)
