-- ===== src/Cache/Limiter/Refines.antt =====
-- `memLimiter.Allow` beside its specification, which keeps every admitted request for ever and looks at
-- those of the window that ends now; the code forgets.
use fxcore.Prelude.{
  ℕ, ◌≤◌, ◌≡◌, refl, sym, ap, ◌∙◌, inl, inr, Bool, true, false, String, str_eq, eq_iff, eq_refl,
  List, [], ◌∷◌, ◌++◌, arith, ltb, leb, if◌then◌else◌, length, Bool-cases, Option-cases,
}
use fxcore.Prelude.Dict.{Dict, lookup, purge, insert, IsMap}
use fxcore.Prelude.Dict.Laws.{lookup-insert, lookup-purge, insert-IsMap, purge-IsMap}
use fxcore.Cache.{max_mem_keys}
use fxcore.Cache.Limiter.{
  Limiter, Outcome, allowed, denied, panicked, entries, stale, recent, refuse, sweep, allow,
}
use fxcore.Cache.Limiter.Window.{
  Ascending, Before, Before-mono, All-select, Ascending-recent, Ascending-append, Before-append,
  recent-recent, recent-append, recent-stale,
}

-- All the requests ever admitted for each key, oldest first.
abbrev pub History : Type 0
History = String → List ℕ

abbrev pub admit : String → ℕ → History → History
admit key now h k = if str_eq key k then h k ++ (now ∷ []) else h k

abbrev pub is_allowed : Outcome → Bool
is_allowed allowed = true
is_allowed (denied retry) = false
is_allowed panicked = false

abbrev pub IsKept : ℕ → List ℕ → Type 0
IsKept now ts = Ascending ts × Before now ts

-- Between calls, the last of which was at `now`: each key is stored once, its instants ascend and
-- are past, and from now on they show in every window what the history shows.
pub record IsSound (window now : ℕ) (h : History) (l : Limiter) : Type 0 where
  pub is_map : IsMap l.keys
  pub kept : (k : String) → IsKept now (entries k l)
  pub tracks :
      (k : String) (t : ℕ) → now ≤ t → recent window t (entries k l) ≡ recent window t (h k)

IsKept-mono : (a b : ℕ) (ts : List ℕ) → a ≤ b → IsKept a ts → IsKept b ts
IsKept-mono a b ts h k = (k.0, Before-mono a b ts h k.1)

IsKept-recent : (window now : ℕ) (ts : List ℕ) → IsKept now ts → IsKept now (recent window now ts)
IsKept-recent window now ts k =
    (Ascending-recent window now ts k.0, All-select (λ t. t ≤ now) window now ts k.1)

later :
    (window a b : ℕ) (h : History) (l : Limiter)
    → a ≤ b
    → IsSound window a h l
    → IsSound window b h l
later window a b h l le s = record {
  is_map = s.is_map;
  kept = λ k. IsKept-mono a b (entries k l) le (s.kept k);
  tracks = λ k t u. s.tracks k t (omega arith);
}

-- What the sweep leaves of one key.
unfoldable pub swept_entry : ℕ → ℕ → List ℕ → List ℕ
swept_entry window now ts = if stale window now ts then [] else ts

pub entries-purge :
    (window now : ℕ) (k : String) (l : Limiter)
    → IsMap l.keys
    → entries k (record { keys = purge (stale window now) l.keys })
      ≡ swept_entry window now (entries k l)
unfolding entries swept_entry
entries-purge window now k l u =
    rw (lookup-purge (stale window now) k l.keys u) (elim (Option-cases (lookup k l.keys)) [
      | inl p ↦ rw p refl
      | inr (ts, p) ↦ rw p (ground arith)
    ])

swept_entry-IsKept :
    (window now : ℕ) (ts : List ℕ) → IsKept now ts → IsKept now (swept_entry window now ts)
unfolding swept_entry
swept_entry-IsKept window now ts k = elim (Bool-cases (stale window now ts)) [
  | inl p ↦ rw p (tt, tt)
  | inr p ↦ rw p k
]

recent-swept_entry :
    (window now t : ℕ) (ts : List ℕ)
    → IsKept now ts
    → now ≤ t
    → recent window t (swept_entry window now ts) ≡ recent window t ts
unfolding swept_entry
recent-swept_entry window now t ts k h = elim (Bool-cases (stale window now ts)) [
  | inl p ↦ rw (p, recent-stale window now t ts k.0 p h)
  | inr p ↦ rw p
]

-- The sweep keeps the invariant.
sweep-IsSound :
    (window now : ℕ) (h : History) (l : Limiter)
    → IsSound window now h l
    → IsSound window now h (sweep window now l)
unfolding sweep
sweep-IsSound window now h l s = elim (Bool-cases (ltb max_mem_keys (length l.keys))) [
  | inr p ↦ rw p s
  | inl p ↦ rw p (record {
    is_map = purge-IsMap (stale window now) l.keys s.is_map;
    kept = λ k.
        rw (entries-purge window now k l s.is_map)
          (swept_entry-IsKept window now (entries k l) (s.kept k));
    tracks = λ k t u.
        rw (entries-purge window now k l s.is_map)
          (recent-swept_entry window now t (entries k l) (s.kept k) u ∙ s.tracks k t u);
  })
]

pub entries-insert :
    (key k : String) (ts : List ℕ) (m : Dict (List ℕ))
    → entries k (record { keys = insert key ts m })
      ≡ (if str_eq key k then ts else entries k (record { keys = m }))
unfolding entries
entries-insert key k ts m = rw lookup-insert (ground arith)

-- Writing one key: what the new entry shows has to be what the new history shows.
insert-IsSound :
    (window now : ℕ) (h h' : History) (l : Limiter) (key : String) (ts : List ℕ)
    → IsSound window now h l
    → IsKept now ts
    → ((t : ℕ) → now ≤ t → recent window t ts ≡ recent window t (h' key))
    → ((k : String) → str_eq key k ≡ false → h' k ≡ h k)
    → IsSound window now h' (record { keys = insert key ts l.keys })
insert-IsSound window now h h' l key ts s kept shows others = record {
  is_map = insert-IsMap key ts l.keys s.is_map;
  kept = λ k.
      rw entries-insert
        (elim (Bool-cases (str_eq key k)) [ inl p ↦ rw p kept | inr p ↦ rw p (s.kept k) ]);
  tracks = λ k t u. rw entries-insert (elim (Bool-cases (str_eq key k)) [
    | inl p ↦ rw p (shows t u ∙ ap (λ j. recent window t (h' j)) ((eq_iff key k).0 p))
    | inr p ↦ rw (p, others k p) (s.tracks k t u)
  ]);
}

pub is_allowed-refuse : (window now : ℕ) (ts : List ℕ) → is_allowed (refuse window now ts) ≡ false
is_allowed-refuse window now [] = refl
is_allowed-refuse window now (t ∷ ts) = ground arith

denied_step :
    (window now : ℕ) (key : String) (h : History) (l : Limiter)
    → IsSound window now h l
    → IsSound window now h (record { keys = insert key (recent window now (entries key l)) l.keys })
denied_step window now key h l s =
    insert-IsSound window now h h l key (recent window now (entries key l)) s
      (IsKept-recent window now (entries key l) (s.kept key))
      (λ t u. recent-recent window now t (entries key l) u ∙ s.tracks key t u) (λ k e. refl)

allowed_shows :
    (window now t : ℕ) (key : String) (h : History) (l : Limiter)
    → IsSound window now h l
    → now ≤ t
    → recent window t (recent window now (entries key l) ++ (now ∷ []))
      ≡ recent window t (admit key now h key)
allowed_shows window now t key h l s u =
    let same : recent window t (recent window now (entries key l)) ≡ recent window t (h key) =
      recent-recent window now t (entries key l) u ∙ s.tracks key t u in
    rw eq_refl (
      recent-append window t (recent window now (entries key l)) (now ∷ [])
      ∙ ap (λ x. x ++ recent window t (now ∷ [])) same
      ∙ sym (recent-append window t (h key) (now ∷ [])))

allowed_step :
    (window now : ℕ) (key : String) (h : History) (l : Limiter)
    → IsSound window now h l
    → IsSound window now
        (admit key now h)
        (record { keys = insert key (recent window now (entries key l) ++ (now ∷ [])) l.keys })
allowed_step window now key h l s =
    let kept = IsKept-recent window now (entries key l) (s.kept key) in
    insert-IsSound window now h (admit key now h) l key
      (recent window now (entries key l) ++ (now ∷ [])) s
      (Ascending-append now _ kept.0 kept.1, Before-append now _ kept.1)
      (λ t u. allowed_shows window now t key h l s u) (λ k e. rw e)

-- A request is admitted exactly when fewer than `limit` requests of its key were admitted in the
-- window that ends now; the answer is entered in the history, and the code keeps track of it.
pub allow_refines :
    (window now : ℕ) (key : String) (limit : ℕ) (h : History) (l : Limiter) (before : ℕ)
    → IsSound window before h l
    → before ≤ now
    → let (o, l') = allow now key limit window l in
      (is_allowed o ≡ ltb (length (recent window now (h key))) limit)
      × IsSound window now (if is_allowed o then admit key now h else h) l'
unfolding allow
allow_refines window now key limit h l before sound le =
    let l₁ : Limiter = sweep window now l in
    let s : IsSound window now h l₁ =
      sweep-IsSound window now h l (later window before now h l le sound) in
    let kept : List ℕ = recent window now (entries key l₁) in
    let counted : recent window now (entries key l₁) ≡ recent window now (h key) =
      s.tracks key now (omega arith) in
    elim (Bool-cases (leb limit (length kept))) [
      | inl p ↦ rw p (
        rw (is_allowed-refuse window now kept) (rw (← counted) (ground arith)),
        rw (is_allowed-refuse window now kept) (denied_step window now key h l₁ s),
      )
      | inr p ↦ rw p (rw (← counted) (ground arith), allowed_step window now key h l₁ s)
    ]

-- A refusal is computed from the requests of the window, which the history shows as well.
pub refused_by :
    (window now : ℕ) (key : String) (limit : ℕ) (h : History) (l : Limiter) (before r : ℕ)
    → IsSound window before h l
    → before ≤ now
    → (allow now key limit window l).0 ≡ denied r
    → refuse window now (recent window now (h key)) ≡ denied r
unfolding allow
refused_by window now key limit h l before r sound le e =
    let l₁ : Limiter = sweep window now l in
    let s : IsSound window now h l₁ =
      sweep-IsSound window now h l (later window before now h l le sound) in
    rw (← s.tracks key now (omega arith)) (ground arith)
