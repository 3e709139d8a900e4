-- ===== src/Cache/Nonce.antt =====
-- `memNonceCache.Add`, with the time to live of each key.
use fxcore.Prelude.{
  ℕ, ◌+◌, ◌≤◌, ◌<◌, ◌≡◌, inl, inr, Bool, true, false, Option, none, some, String, str_eq, eq_iff,
  List, [], ◌∷◌, arith, ltb, if◌then◌else◌, length, Bool-cases,
}
use fxcore.Prelude.Dict.{Dict, lookup, insert, purge, IsMap}
use fxcore.Prelude.Dict.Laws.{lookup-insert, lookup-purge, insert-IsMap, purge-IsMap}
use fxcore.Cache.{max_mem_keys}

-- For each key, when it expires.
pub record NonceCache : Type 0 where
  pub items : Dict ℕ

abbrev pub new : NonceCache
new = record { items = [] }

-- `exp, ok := c.items[key]; ok && time.Now().Before(exp)`
abbrev pub is_live : ℕ → Option ℕ → Bool
is_live now none = false
is_live now (some exp) = ltb now exp

sweep : ℕ → Dict ℕ → Dict ℕ
sweep now m = if ltb max_mem_keys (length m) then purge (λ exp. ltb exp now) m else m

unfoldable pub add : ℕ → String → ℕ → NonceCache → Bool × NonceCache
unfolding sweep
add now key ttl c =
    let swept = sweep now c.items in
    if is_live now (lookup key swept)
    then (false, record { items = swept })
    else (true, record { items = insert key (now + ttl) swept })

abbrev pub IsWell : NonceCache → Type 0
IsWell c = IsMap c.items

-- Whether the key is refused at an instant.
unfoldable pub blocked : ℕ → String → NonceCache → Bool
blocked t key c = is_live t (lookup key c.items)

sweep-IsMap : (now : ℕ) (m : Dict ℕ) → IsMap m → IsMap (sweep now m)
unfolding sweep
sweep-IsMap now m w = elim (Bool-cases (ltb max_mem_keys (length m))) [
  | inl p ↦ rw p (purge-IsMap (λ exp. ltb exp now) m w)
  | inr p ↦ rw p w
]

is_live-sweep :
    (now t : ℕ) (key : String) (m : Dict ℕ)
    → IsMap m
    → now ≤ t
    → is_live t (lookup key (sweep now m)) ≡ is_live t (lookup key m)
unfolding sweep
is_live-sweep now t key m w h = elim (Bool-cases (ltb max_mem_keys (length m))) [
  | inl p ↦ rw (p, lookup-purge (λ exp. ltb exp now) key m w) (ground arith)
  | inr p ↦ rw p
]

pub add-IsWell :
    (now : ℕ) (key : String) (ttl : ℕ) (c : NonceCache) → IsWell c → IsWell (add now key ttl c).1
unfolding add
add-IsWell now key ttl c w = elim (Bool-cases (is_live now (lookup key (sweep now c.items)))) [
  | inl p ↦ rw p (sweep-IsMap now c.items w)
  | inr p ↦ rw p (insert-IsMap key (now + ttl) _ (sweep-IsMap now c.items w))
]

-- `Add` accepts a key exactly when it is not blocked. A key that is accepted is blocked until `ttl`
-- has passed, no other key changes, and a refusal changes nothing.
pub add_refines :
    (now t : ℕ) (key : String) (ttl : ℕ) (c : NonceCache) (j : String)
    → IsWell c
    → now ≤ t
    → let (first, c') = add now key ttl c in
      IsWell c'
      × (first ≡ (if blocked now key c then false else true))
      × (blocked t j c' ≡ (
          if first
          then (if str_eq key j then ltb t (now + ttl) else blocked t j c)
          else blocked t j c))
unfolding add blocked
add_refines now t key ttl c j w h =
    elim (Bool-cases (is_live now (lookup key (sweep now c.items)))) [
      | inl p ↦ rw p (
        sweep-IsMap now c.items w,
        rw (← is_live-sweep now now key c.items w (omega arith)) (rw p),
        is_live-sweep now t j c.items w h,
      )
      | inr p ↦ rw p (
        insert-IsMap key (now + ttl) _ (sweep-IsMap now c.items w),
        rw (← is_live-sweep now now key c.items w (omega arith)) (rw p),
        rw lookup-insert (ground (arith, is_live-sweep now t j c.items w h)),
      )
    ]

-- A call: its instant, its key and its time to live.
abbrev pub Call : Type 0
Call = ℕ × String × ℕ

pub run : List Call → NonceCache → NonceCache
run [] c = c
run ((now, key, ttl) ∷ cs) c = run cs (add now key ttl c).1

abbrev pub IsTimed : ℕ → List Call → Type 0
IsTimed now [] = Unit
IsTimed now ((t, key, ttl) ∷ cs) = (now ≤ t) × IsTimed t cs

abbrev pub last_time : ℕ → List Call → ℕ
last_time now [] = now
last_time now ((t, key, ttl) ∷ cs) = last_time t cs

pub le-last_time : (now : ℕ) (cs : List Call) → IsTimed now cs → now ≤ last_time now cs
le-last_time now [] h = omega arith
le-last_time now ((t, key, ttl) ∷ cs) h = omega (arith, le-last_time t cs h.1)

-- While a key is blocked, a call with it is refused, so its entry stays.
blocked_before :
    (u t : ℕ) (key : String) (c : NonceCache)
    → u ≤ t
    → blocked t key c ≡ true
    → blocked u key c ≡ true
unfolding blocked
blocked_before u t key c h b = ground arith

keeps_blocked :
    (u t : ℕ) (j : String) (ttl : ℕ) (c : NonceCache) (key : String)
    → IsWell c
    → u ≤ t
    → blocked t key c ≡ true
    → blocked t key (add u j ttl c).1 ≡ true
keeps_blocked u t j ttl c key w h b =
    let r = add_refines u t j ttl c key w h in
    ground (arith, r.1, r.2, blocked_before u t key c h b, eq_iff j key)

-- A blocked key stays blocked under any later calls, its own included.
run-blocked :
    (key : String) (t now : ℕ) (cs : List Call) (c : NonceCache)
    → IsWell c
    → IsTimed now cs
    → last_time now cs ≤ t
    → blocked t key c ≡ true
    → IsWell (run cs c) × (blocked t key (run cs c) ≡ true)
unfolding run
run-blocked key t now [] c w timed late b = (w, b)
run-blocked key t now ((u, j, ttl) ∷ cs) c w timed late b =
    let soon : u ≤ t = omega (arith, le-last_time u cs timed.1) in
    run-blocked key t u cs (add u j ttl c).1 (add-IsWell u j ttl c w) timed.1 late
      (keeps_blocked u t j ttl c key w soon b)

pub run-IsWell : (cs : List Call) (c : NonceCache) → IsWell c → IsWell (run cs c)
unfolding run
run-IsWell [] c w = w
run-IsWell ((u, j, ttl) ∷ cs) c w = run-IsWell cs (add u j ttl c).1 (add-IsWell u j ttl c w)

-- Once a key has been accepted, it is refused until its time to live has passed, whatever calls with
-- this or other keys come between.
pub add_once :
    (key : String) (ttl now : ℕ) (c : NonceCache) (cs : List Call) (t ttl' : ℕ)
    → IsWell c
    → (add now key ttl c).0 ≡ true
    → IsTimed now cs
    → last_time now cs ≤ t
    → t < now + ttl
    → (add t key ttl' (run cs (add now key ttl c).1)).0 ≡ false
add_once key ttl now c cs t ttl' w accepted timed late soon =
    let c' : NonceCache = (add now key ttl c).1 in
    let r = add_refines now t key ttl c key w (omega (arith, le-last_time now cs timed)) in
    let b : blocked t key c' ≡ true = ground (arith, r.2, eq_iff key key) in
    let later = run-blocked key t now cs c' r.0 timed late b in
    let again = add_refines t t key ttl' (run cs c') key later.0 (omega arith) in
    ground (arith, again.1, later.1)
