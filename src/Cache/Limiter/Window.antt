-- ===== src/Cache/Limiter/Window.antt =====
-- Instants in ascending order, and those of the last window.
use fxcore.Prelude.{ℕ, ◌+◌, ◌≤◌, ◌<◌, ◌≡◌, refl, List, [], ◌∷◌, ◌++◌, arith, true, length, All}
use fxcore.Cache.Limiter.{last, stale, recent}

abbrev pub Ascending : List ℕ → Type 0
Ascending [] = Unit
Ascending (t ∷ ts) = All (λ u. t ≤ u) ts × Ascending ts

abbrev pub Before : ℕ → List ℕ → Type 0
Before now = All (λ t. t ≤ now)

pub Before-mono : (a b : ℕ) (ts : List ℕ) → a ≤ b → Before a ts → Before b ts
Before-mono a b [] h p = tt
Before-mono a b (t ∷ ts) h p = (omega arith, Before-mono a b ts h p.1)

-- The last of ascending instants is the latest.
pub Before-last : (t : ℕ) (ts : List ℕ) → Ascending (t ∷ ts) → Before (last t ts) (t ∷ ts)
Before-last t [] a = omega arith
Before-last t (u ∷ ts) a = let rest = Before-last u ts a.1 in (omega arith, rest)

pub All-select :
    (P : ℕ → Type 0) (window now : ℕ) (ts : List ℕ) → All P ts → All P (recent window now ts)
All-select P window now [] a = tt
All-select P window now (t ∷ ts) a = ground (arith, All-select P window now ts a.1)

pub Ascending-recent :
    (window now : ℕ) (ts : List ℕ) → Ascending ts → Ascending (recent window now ts)
Ascending-recent window now [] a = tt
Ascending-recent window now (t ∷ ts) a =
    ground (arith, Ascending-recent window now ts a.1, All-select (λ u. t ≤ u) window now ts a.0)

pub Ascending-append :
    (now : ℕ) (ts : List ℕ) → Ascending ts → Before now ts → Ascending (ts ++ (now ∷ []))
Ascending-append now [] a b = (tt, tt)
Ascending-append now (t ∷ ts) a b = (later ts a.0, Ascending-append now ts a.1 b.1)
  where
    later : (us : List ℕ) → All (λ u. t ≤ u) us → All (λ u. t ≤ u) (us ++ (now ∷ []))
    later [] p = (b.0, tt)
    later (u ∷ us) p = (p.0, later us p.1)

pub Before-append : (now : ℕ) (ts : List ℕ) → Before now ts → Before now (ts ++ (now ∷ []))
Before-append now [] b = omega arith
Before-append now (t ∷ ts) b = (b.0, Before-append now ts b.1)

-- A later window sees the same, whether or not an earlier one has been cut out first.
pub recent-recent :
    (window now t : ℕ) (ts : List ℕ)
    → now ≤ t
    → recent window t (recent window now ts) ≡ recent window t ts
recent-recent window now t [] h = refl
recent-recent window now t (u ∷ ts) h = ground (arith, recent-recent window now t ts h)

pub recent-append :
    (window t : ℕ) (ts us : List ℕ)
    → recent window t (ts ++ us) ≡ recent window t ts ++ recent window t us
recent-append window t [] us = refl
recent-append window t (u ∷ ts) us = ground (arith, recent-append window t ts us)

pub recent_gone :
    (window t m : ℕ) (ts : List ℕ) → Before m ts → m + window < t → recent window t ts ≡ []
recent_gone window t m [] b h = refl
recent_gone window t m (u ∷ ts) b h = ground (arith, recent_gone window t m ts b.1 h)

-- A slice that the sweep drops holds nothing that a later window would see.
pub recent-stale :
    (window now t : ℕ) (ts : List ℕ)
    → Ascending ts
    → stale window now ts ≡ true
    → now ≤ t
    → recent window t ts ≡ []
recent-stale window now t [] a s h = refl
recent-stale window now t (u ∷ ts) a s h =
    recent_gone window t (last u ts) (u ∷ ts) (Before-last u ts a) (ground arith)

-- Fewer requests are recent the later one looks.
pub length-recent_mono :
    (window now t : ℕ) (ts : List ℕ)
    → now ≤ t
    → length (recent window t ts) ≤ length (recent window now ts)
length-recent_mono window now t [] h = omega arith
length-recent_mono window now t (u ∷ ts) h = ground (arith, length-recent_mono window now t ts h)

pub length-recent-le : (window t : ℕ) (ts : List ℕ) → length (recent window t ts) ≤ length ts
length-recent-le window t [] = omega arith
length-recent-le window t (u ∷ ts) = ground (arith, length-recent-le window t ts)
