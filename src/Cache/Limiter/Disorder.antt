-- ===== src/Cache/Limiter/Disorder.antt =====
-- Clients of `memLimiter.Allow` whose calls take the lock out of the order of the instants that they
-- read, by no more than a bound.
use fxcore.Prelude.{
  ℕ, ◌+◌, ◌*◌, ◌≤◌, ◌<◌, ◌≡◌, refl, subst, ap, ◌∙◌, inl, inr, true, false, String, str_eq, eq_iff,
  eq_refl, List, [], ◌∷◌, ◌++◌, arith, ltb, leb, if◌then◌else◌, length, length-append, All-append,
  Bool-cases,
}
use fxcore.Prelude.Dict.{lookup, insert, IsMap}
use fxcore.Prelude.Dict.Laws.{insert-IsMap, purge-IsMap}
use fxcore.Cache.{max_mem_keys}
use fxcore.Cache.Limiter.{Limiter, Outcome, entries, stale, recent, sweep, allow, new}
use fxcore.Cache.Limiter.Window.{Before, Before-mono, All-select, recent-append, length-recent_mono}
use fxcore.Cache.Limiter.Refines.{
  History, admit, is_allowed, swept_entry, entries-purge, entries-insert, is_allowed-refuse,
}
use fxcore.Cache.Limiter.Bound.{Limits, outcome_history, run, nothing}
use fxcore.Cache.Limiter.Near.{
  Near, Near-recent, Near-append, recent-pruned, recent-swept, length-recent_wider,
}

module _ (w d : ℕ) where
  -- Between calls, of which the latest instant is `m`: the stored instants are nearly in order, and
  -- show what the history shows in each window of `w` that a call may still look at.
  record IsTracked (m : ℕ) (h : History) (l : Limiter) : Type 0 where
    is_map : IsMap l.keys
    near : (k : String) → Near d (entries k l)
    before : (k : String) → Before m (entries k l)
    tracks : (k : String) (t : ℕ) → m ≤ t + d → recent w t (entries k l) ≡ recent w t (h k)

  swept_entry-Near :
      (now m : ℕ) (ts : List ℕ)
      → Near d ts
      → Before m ts
      → Near d (swept_entry (w + 2 * d) now ts) × Before m (swept_entry (w + 2 * d) now ts)
  unfolding swept_entry
  swept_entry-Near now m ts n b = elim (Bool-cases (stale (w + 2 * d) now ts)) [
    | inl p ↦ rw p (tt, tt)
    | inr p ↦ rw p (n, b)
  ]

  sweep-IsTracked :
      (m m' now : ℕ) (h : History) (l : Limiter)
      → m ≤ m'
      → now ≤ m'
      → IsTracked m h l
      → IsTracked m' h (sweep (w + 2 * d) now l)
  unfolding sweep
  sweep-IsTracked m m' now h l le here s =
      let window = w + 2 * d in
      elim (Bool-cases (ltb max_mem_keys (length l.keys))) [
        | inr p ↦ rw p (record {
          is_map = s.is_map;
          near = s.near;
          before = λ k. Before-mono m m' (entries k l) le (s.before k);
          tracks = λ k t u. s.tracks k t (omega arith);
        })
        | inl p ↦ rw p (record {
          is_map = purge-IsMap (stale window now) l.keys s.is_map;
          near = λ k.
              rw (entries-purge window now k l s.is_map)
                (swept_entry-Near now m (entries k l) (s.near k) (s.before k)).0;
          before = λ k. rw (entries-purge window now k l s.is_map) (
              Before-mono m m' _ le
                (swept_entry-Near now m (entries k l) (s.near k) (s.before k)).1);
          tracks = λ k t u. rw (entries-purge window now k l s.is_map) (
              recent-swept w d now t (entries k l) (s.near k) (omega arith)
              ∙ s.tracks k t (omega arith));
        })
      ]

  -- Writing one key.
  insert-IsTracked :
      (m : ℕ) (h h' : History) (l : Limiter) (key : String) (ts : List ℕ)
      → IsTracked m h l
      → Near d ts
      → Before m ts
      → ((t : ℕ) → m ≤ t + d → recent w t ts ≡ recent w t (h' key))
      → ((k : String) → str_eq key k ≡ false → h' k ≡ h k)
      → IsTracked m h' (record { keys = insert key ts l.keys })
  insert-IsTracked m h h' l key ts s n b shows others = record {
    is_map = insert-IsMap key ts l.keys s.is_map;
    near = λ k.
        rw entries-insert
          (elim (Bool-cases (str_eq key k)) [ inl p ↦ rw p n | inr p ↦ rw p (s.near k) ]);
    before = λ k.
        rw entries-insert
          (elim (Bool-cases (str_eq key k)) [ inl p ↦ rw p b | inr p ↦ rw p (s.before k) ]);
    tracks = λ k t u. rw entries-insert (elim (Bool-cases (str_eq key k)) [
      | inl p ↦ rw p (shows t u ∙ ap (λ j. recent w t (h' j)) ((eq_iff key k).0 p))
      | inr p ↦ rw (p, others k p) (s.tracks k t u)
    ]);
  }

  shown_after :
      (m' now t : ℕ) (key : String) (h : History) (l : Limiter)
      → now ≤ m'
      → IsTracked m' h l
      → m' ≤ t + d
      → recent w t (recent (w + 2 * d) now (entries key l)) ≡ recent w t (h key)
  shown_after m' now t key h l here s u =
      recent-pruned w d now t (entries key l) (omega arith) ∙ s.tracks key t u

  -- A call leaves the history tracked, and admits only where there is room for one more.
  allow_step :
      (m m' now : ℕ) (key : String) (limit : ℕ) (h : History) (l : Limiter)
      → m ≤ m'
      → now ≤ m'
      → m' ≤ now + d
      → IsTracked m h l
      → let (o, l') = allow now key limit (w + 2 * d) l in
        IsTracked m' (outcome_history o key now h) l'
        × (is_allowed o ≡ true → length (recent w now (h key)) < limit)
  unfolding allow
  allow_step m m' now key limit h l le here close tracked =
      let window = w + 2 * d in
      let l₁ : Limiter = sweep window now l in
      let s : IsTracked m' h l₁ = sweep-IsTracked m m' now h l le here tracked in
      let kept : List ℕ = recent window now (entries key l₁) in
      let n = Near-recent d window now (entries key l₁) (s.near key) in
      let b = All-select (λ t. t ≤ m') window now (entries key l₁) (s.before key) in
      elim (Bool-cases (leb limit (length kept))) [
        | inl p ↦ rw p (
          rw (is_allowed-refuse window now kept) (
              insert-IsTracked m' h h l₁ key kept s n b
                (λ t u. shown_after m' now t key h l₁ here s u) (λ k e. refl)),
          λ yes. cc (is_allowed-refuse window now kept),
        )
        | inr p ↦
            let same : recent w now (entries key l₁) ≡ recent w now (h key) =
              s.tracks key now close in
            rw p (
              insert-IsTracked m' h (admit key now h) l₁ key (kept ++ (now ∷ [])) s
                  (Near-append d m' now kept n b close)
                  (All-append (λ t. t ≤ m') kept (now ∷ []) b (here, tt))
                  (λ t u.
                    rw
                      (
                        eq_refl key,
                        recent-append w t kept (now ∷ []),
                        shown_after m' now t key h l₁ here s u,
                        recent-append w t (h key) (now ∷ []),
                      )
                      refl)
                  (λ k e. rw e refl),
              λ yes.
                  subst (λ ts. length ts < limit) same
                    (ground (arith, length-recent_wider w (2 * d) now (entries key l₁))),
            )
      ]

  abbrev IsBounded : Limits → ℕ → History → Type 0
  IsBounded limits m h = (k : String) → length (recent w m (h k)) ≤ limits k

  allow-IsBounded :
      (m m' now : ℕ) (limits : Limits) (key : String) (h : History) (o : Outcome)
      → m ≤ m'
      → now ≤ m'
      → (is_allowed o ≡ true → length (recent w now (h key)) < limits key)
      → IsBounded limits m h
      → IsBounded limits m' (outcome_history o key now h)
  allow-IsBounded m m' now limits key h o le here room b k =
      let still = length-recent_mono w m m' (h k) le in
      elim (Bool-cases (is_allowed o)) [
        | inr p ↦ rw p (omega (arith, still, b k))
        | inl p ↦ elim (Bool-cases (str_eq key k)) [
          | inr e ↦ rw (p, e) (omega (arith, still, b k))
          | inl e ↦
              let there : length (recent w now (h k)) < limits k =
                subst (λ j. length (recent w now (h j)) < limits j) ((eq_iff key k).0 e) (room p) in
              rw (p, e, recent-append w m' (h k) (now ∷ []), length-append)
                (ground (arith, there, length-recent_mono w now m' (h k) here))
        ]
      ]

abbrev max_of : ℕ → ℕ → ℕ
max_of a b = if leb a b then b else a

-- The latest instant of the calls.
abbrev pub latest : ℕ → List (ℕ × String) → ℕ
latest m [] = m
latest m ((t, key) ∷ cs) = latest (max_of m t) cs

-- In the order of the locks, no instant is more than `d` before an earlier one.
abbrev pub IsNearly : ℕ → ℕ → List (ℕ × String) → Type 0
IsNearly d m [] = Unit
IsNearly d m ((t, key) ∷ cs) = (m ≤ t + d) × IsNearly d (max_of m t) cs

run-IsBounded :
    (w d : ℕ) (limits : Limits) (m : ℕ) (cs : List (ℕ × String)) (h : History) (l : Limiter)
    → IsTracked w d m h l
    → IsBounded w d limits m h
    → IsNearly d m cs
    → IsBounded w d limits (latest m cs) (run (w + 2 * d) limits cs h l).0
unfolding run
run-IsBounded w d limits m [] h l s b nearly = b
run-IsBounded w d limits m ((now, key) ∷ cs) h l s b (close, nearly) =
    let m' = max_of m now in
    let le : m ≤ m' = ground arith in
    let here : now ≤ m' = ground arith in
    let (s', room) = allow_step w d m m' now key (limits key) h l le here (ground arith) s in
    let (o, l') = allow now key (limits key) (w + 2 * d) l in
    run-IsBounded w d limits m' cs (outcome_history o key now h) l' s'
      (allow-IsBounded w d m m' now limits key h o le here room b) nearly

new-IsTracked : (w d : ℕ) → IsTracked w d 0 nothing new
unfolding entries
new-IsTracked w d = record {
  is_map = tt;
  near = λ k. unfold lookup in tt;
  before = λ k. unfold lookup in tt;
  tracks = λ k t u. unfold lookup in refl;
}

-- Requests of any keys take the lock of a limiter with a window of w + 2 * d milliseconds, which
-- was empty, and each reads an instant that is at most d milliseconds before those that the
-- requests before it have read. Then at most limits k requests of the key k are admitted in the
-- window of w milliseconds that ends at the latest of the instants. Where the locks are taken in
-- the order of the instants, d is 0, and this is the whole window.
pub admitted_nearly :
    (w d : ℕ) (limits : Limits) (cs : List (ℕ × String)) (k : String)
    → IsNearly d 0 cs
    → length (recent w (latest 0 cs) ((run (w + 2 * d) limits cs nothing new).0 k)) ≤ limits k
admitted_nearly w d limits cs k nearly =
    run-IsBounded w d limits 0 cs nothing new (new-IsTracked w d) (λ j. omega arith) nearly k
