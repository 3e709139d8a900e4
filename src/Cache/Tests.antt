-- ===== src/Cache/Tests.antt =====
-- Runs of the in-memory stores, and the theorems about them at concrete inputs.
use fxcore.Prelude.{
  ℕ, ◌+◌, ◌*◌, ◌≤◌, ◌≡◌, refl, true, false, none, some, String, str_eq, eq_iff, List, [], ◌∷◌, ltb,
  if◌then◌else◌, length, arith,
}
use fxcore.Prelude.Dict.{lookup, insert}
use fxcore.Cache.Token
use fxcore.Cache.Token.View
use fxcore.Cache.Token.View.{step_refines}
use fxcore.Cache.Token.Rotation.{rotate_once}
use fxcore.Cache.Limiter
use fxcore.Cache.Limiter.{allowed, denied, recent}
use fxcore.Cache.Limiter.Refines.{History, is_allowed, admit, IsSound, allow_refines}
use fxcore.Cache.Limiter.Bound.{run, nothing, new-IsSound, retry_admits}
use fxcore.Cache.Limiter.Disorder.{latest, admitted_nearly}
use fxcore.Cache.Nonce
use fxcore.Cache.Nonce.{add_refines, add_once}

abbrev tokens : Token.TokenStore
tokens = record { items = ("t1", record { user_id = "ann"; exp = 100 }) ∷ [] }

rotate_test : (Token.rotate 100 "t1" "t2" 50 tokens).0 ≡ some "ann"
unfolding Token.rotate lookup
rotate_test = refl

step_refines_example :
    View.IsWell (Token.step 60 (Token.rotate_call "t1" "t2" 50) tokens).1
    × ((Token.step 60 (Token.rotate_call "t1" "t2" 50) tokens).0
        ≡ View.answer 60 (Token.rotate_call "t1" "t2" 50) (View.view tokens))
    × (View.view (Token.step 60 (Token.rotate_call "t1" "t2" 50) tokens).1 70 "t2"
        ≡ View.after 60 (Token.rotate_call "t1" "t2" 50) (View.view tokens) 70 "t2")
step_refines_example =
    step_refines 60 70 (Token.rotate_call "t1" "t2" 50) tokens "t2" (unfold lookup in (refl, tt))
      (omega arith)

rotate_once_example :
    (Token.rotate 90 "t1" "t3" 50
      (Token.run ((70, Token.get_call "t1") ∷ []) (Token.rotate 60 "t1" "t2" 50 tokens).1)).0
    ≡ none
rotate_once_example =
    rotate_once "t1" "t2" 50 60 tokens "ann" ((70, Token.get_call "t1") ∷ []) 90 "t3" 50
      (unfold lookup in (refl, tt)) (ground (arith, eq_iff "t2" "t1"))
      (unfold Token.rotate lookup in refl) (omega arith) (omega arith) (tt, tt)

-- Two requests a second, at 0, 10, 20 and 1011 milliseconds: the third is told to wait a second.
abbrev second_limiter : ℕ → Limiter.Limiter → Limiter.Outcome × Limiter.Limiter
second_limiter now = Limiter.allow now "read:1.2.3.4" 2 1000

limiter_test :
    let l₁ = (second_limiter 0 Limiter.new).1 in
    let l₂ = (second_limiter 10 l₁).1 in
    let (third, l₃) = second_limiter 20 l₂ in
    (third ≡ denied 1) × ((second_limiter 1011 l₃).0 ≡ allowed)
unfolding Limiter.allow lookup insert
limiter_test = (refl, refl)

allow_refines_example :
    let (o, l') = Limiter.allow 5 "k" 2 1000 Limiter.new in
    (is_allowed o ≡ ltb (length (recent 1000 5 (nothing "k"))) 2)
    × IsSound 1000 5 (if is_allowed o then admit "k" 5 nothing else nothing) l'
allow_refines_example =
    allow_refines 1000 5 "k" 2 nothing Limiter.new 0 (new-IsSound 1000) (omega arith)

-- A request that read the clock at 60040 takes the lock after one that read it at 60041: the two of
-- instant 40 are forgotten too early, and three are admitted in the window that ends at 60040.
abbrev disordered : List (ℕ × String)
disordered = (40, "a") ∷ (40, "a") ∷ (60_041, "a") ∷ (60_040, "a") ∷ []

disorder_test :
    (run 60_000 (λ k. 2) disordered nothing Limiter.new).0 "a" ≡ 40 ∷ 40 ∷ 60_041 ∷ 60_040 ∷ []
unfolding run Limiter.allow Limiter.entries lookup insert
disorder_test = refl

-- In the window that is shorter by two milliseconds there are two.
admitted_nearly_example :
    length (
      recent 59_998
        (latest 0 disordered)
        ((run (59_998 + 2 * 1) (λ k. 2) disordered nothing Limiter.new).0 "a"))
    ≤ 2
admitted_nearly_example = admitted_nearly 59_998 1 (λ k. 2) disordered "a" (omega arith)

abbrev full : Limiter.Limiter
full = record { keys = ("k", 0 ∷ 10 ∷ []) ∷ [] }

abbrev full_history : History
full_history k = if str_eq "k" k then 0 ∷ 10 ∷ [] else []

full-IsSound : IsSound 1000 10 full_history full
unfolding Limiter.entries lookup
full-IsSound = record {
  is_map = (refl, tt);
  kept = λ k. ground arith;
  tracks = λ k t u. ground arith;
}

retry_admits_example :
    is_allowed (Limiter.allow 1020 "k" 2 1000 (Limiter.allow 20 "k" 2 1000 full).1).0 ≡ true
retry_admits_example =
    retry_admits 1000 20 "k" 2 full_history full 10 1 full-IsSound (omega arith) (omega arith)
      (unfold Limiter.allow lookup insert in refl)

abbrev nonces : Nonce.NonceCache
nonces = record { items = ("n1", 50) ∷ [] }

add_refines_example :
    let (first, c') = Nonce.add 60 "n1" 300 nonces in
    Nonce.IsWell c'
    × (first ≡ (if Nonce.blocked 60 "n1" nonces then false else true))
    × (Nonce.blocked 70 "n1" c' ≡ (
        if first
        then (if str_eq "n1" "n1" then ltb 70 360 else Nonce.blocked 70 "n1" nonces)
        else Nonce.blocked 70 "n1" nonces))
add_refines_example =
    add_refines 60 70 "n1" 300 nonces "n1" (unfold lookup in (refl, tt)) (omega arith)
