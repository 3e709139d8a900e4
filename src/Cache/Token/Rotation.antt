-- ===== src/Cache/Token/Rotation.antt =====
-- `kvTokenStore.Rotate` among the other calls of the store.
use fxcore.Prelude.{
  ℕ, ◌≤◌, ◌≡◌, sym, ◌∙◌, ◌≢◌, none, some, String, eq_iff, List, [], ◌∷◌, arith, All,
}
use fxcore.Cache.Token.{
  TokenStore, rotate, Call, set_call, get_call, del_call, rotate_call, step, run,
}
use fxcore.Cache.Token.View.{view, IsWell, after, rotate_answer, step_refines}

-- The call writes no entry under the token.
abbrev pub Spares : String → Call → Type 0
Spares token (set_call j user_id ttl) = j ≢ token
Spares token (get_call j) = Unit
Spares token (del_call j) = Unit
Spares token (rotate_call old_token new_token ttl) = new_token ≢ token

-- The instants of a history never go back, and none lies before `now`.
abbrev pub IsTimed : ℕ → List (ℕ × Call) → Type 0
IsTimed now [] = Unit
IsTimed now ((t, c) ∷ cs) = (now ≤ t) × IsTimed t cs

abbrev pub last_time : ℕ → List (ℕ × Call) → ℕ
last_time now [] = now
last_time now ((t, c) ∷ cs) = last_time t cs

le-last_time : (now : ℕ) (cs : List (ℕ × Call)) → IsTimed now cs → now ≤ last_time now cs
le-last_time now [] h = omega arith
le-last_time now ((t, c) ∷ cs) h = omega (arith, le-last_time t cs h.1)

after-none :
    (token : String) (now t : ℕ) (c : Call) (s : TokenStore)
    → Spares token c
    → view s t token ≡ none
    → after now c (view s) t token ≡ none
after-none token now t (set_call j user_id ttl) s p h = ground (arith, eq_iff j token)
after-none token now t (get_call j) s p h = h
after-none token now t (del_call j) s p h = ground arith
after-none token now t (rotate_call old_token new_token ttl) s p h =
    ground (arith, eq_iff new_token token)

-- A token that is not valid stays so while no call writes it.
run-none :
    (token : String) (now t : ℕ) (cs : List (ℕ × Call)) (s : TokenStore)
    → IsWell s
    → IsTimed now cs
    → last_time now cs ≤ t
    → All (λ c. Spares token c.1) cs
    → view s t token ≡ none
    → view (run cs s) t token ≡ none
unfolding run
run-none token now t [] s w timed late spares h = h
run-none token now t ((u, c) ∷ cs) s w timed late spares h =
    let (w', answered, seen) =
      step_refines u t c s token w (omega (arith, le-last_time u cs timed.1)) in
    run-none token u t cs (step u c s).1 w' timed.1 late spares.1
      (seen ∙ after-none token u t c s spares.0 h)

rotate_consumes :
    (old_token new_token : String) (ttl now t : ℕ) (s : TokenStore) (user_id : String)
    → view s now old_token ≡ some user_id
    → new_token ≢ old_token
    → after now (rotate_call old_token new_token ttl) (view s) t old_token ≡ none
rotate_consumes old_token new_token ttl now t s user_id found ne =
    rw found (ground (arith, eq_iff new_token old_token, eq_iff old_token old_token))

-- After a token has been rotated once, every later rotation of it is refused: whatever calls come
-- between, as long as none writes the token anew and the clock never goes back.
pub rotate_once :
    (old_token new_token : String) (ttl now : ℕ) (s : TokenStore) (user_id : String)
    (cs : List (ℕ × Call)) (t : ℕ) (next_token : String) (ttl' : ℕ)
    → IsWell s
    → new_token ≢ old_token
    → (rotate now old_token new_token ttl s).0 ≡ some user_id
    → IsTimed now cs
    → last_time now cs ≤ t
    → All (λ c. Spares old_token c.1) cs
    → (rotate t old_token next_token ttl' (run cs (rotate now old_token new_token ttl s).1)).0
      ≡ none
unfolding step
rotate_once old_token new_token ttl now s user_id cs t next_token ttl' w ne done timed late spares =
    let s' : TokenStore = (rotate now old_token new_token ttl s).1 in
    let first =
      step_refines now t (rotate_call old_token new_token ttl) s old_token w
        (omega (arith, le-last_time now cs timed)) in
    let gone = run-none old_token now t cs s' first.0 timed late spares (
      first.2
      ∙ rotate_consumes old_token new_token ttl now t s user_id
          (sym (rotate_answer now old_token new_token ttl s) ∙ done) ne) in
    rotate_answer t old_token next_token ttl' (run cs s') ∙ gone
