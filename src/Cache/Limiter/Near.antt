-- ===== src/Cache/Limiter/Near.antt =====
-- Lists of instants that are nearly in order, and what of them is in a window.
use fxcore.Prelude.{
  ℕ, ◌+◌, ◌*◌, ◌≤◌, ◌<◌, ◌≡◌, refl, inl, inr, List, [], ◌∷◌, ◌++◌, arith, length, All, Bool-cases,
}
use fxcore.Cache.Limiter.{last, stale, recent}
use fxcore.Cache.Limiter.Window.{Before, All-select, recent_gone}
use fxcore.Cache.Limiter.Refines.{swept_entry}

-- No instant comes more than `d` after a later one of the list.
abbrev pub Near : ℕ → List ℕ → Type 0
Near d [] = Unit
Near d (t ∷ ts) = All (λ u. t ≤ u + d) ts × Near d ts

pub Near-recent : (d window now : ℕ) (ts : List ℕ) → Near d ts → Near d (recent window now ts)
Near-recent d window now [] n = tt
Near-recent d window now (t ∷ ts) n =
    ground (arith, Near-recent d window now ts n.1, All-select (λ u. t ≤ u + d) window now ts n.0)

pub Near-append :
    (d m now : ℕ) (ts : List ℕ) → Near d ts → Before m ts → m ≤ now + d → Near d (ts ++ (now ∷ []))
Near-append d m now [] n b h = (tt, tt)
Near-append d m now (t ∷ ts) n b h = (ends ts n.0, Near-append d m now ts n.1 b.1 h)
  where
    ends : (us : List ℕ) → All (λ u. t ≤ u + d) us → All (λ u. t ≤ u + d) (us ++ (now ∷ []))
    ends [] p = (omega (arith, b.0), tt)
    ends (u ∷ us) p = (p.0, ends us p.1)

Near-last : (d t : ℕ) (ts : List ℕ) → Near d (t ∷ ts) → Before (last t ts + d) (t ∷ ts)
Near-last d t [] n = (omega arith, tt)
Near-last d t (u ∷ ts) n = let rest = Near-last d u ts n.1 in (head ts u n.0 rest, rest)
  where
    head :
        (us : List ℕ) (v : ℕ)
        → All (λ x. t ≤ x + d) (v ∷ us)
        → Before (last v us + d) (v ∷ us)
        → t ≤ last v us + d
    head [] v p r = p.0
    head (x ∷ us) v p r = head us x p.1 r.1

-- What a window of `w + 2 * d` has lost is in no window of `w` that ends up to `d` before.
pub recent-pruned :
    (w d now t : ℕ) (ts : List ℕ)
    → now ≤ t + d
    → recent w t (recent (w + 2 * d) now ts) ≡ recent w t ts
recent-pruned w d now t [] h = refl
recent-pruned w d now t (u ∷ ts) h = ground (arith, recent-pruned w d now t ts h)

pub recent-swept :
    (w d now t : ℕ) (ts : List ℕ)
    → Near d ts
    → now ≤ t + d
    → recent w t (swept_entry (w + 2 * d) now ts) ≡ recent w t ts
unfolding swept_entry
recent-swept w d now t [] n h = refl
recent-swept w d now t (u ∷ ts) n h = elim (Bool-cases (stale (w + 2 * d) now (u ∷ ts))) [
  | inl p ↦
      let gone : last u ts + d + w < t = ground arith in
      rw (p, recent_gone w t (last u ts + d) (u ∷ ts) (Near-last d u ts n) gone)
  | inr p ↦ rw p
]

-- A wider window that ends at the same instant has no fewer.
pub length-recent_wider :
    (w v now : ℕ) (ts : List ℕ) → length (recent w now ts) ≤ length (recent (w + v) now ts)
length-recent_wider w v now [] = omega arith
length-recent_wider w v now (u ∷ ts) = ground (arith, length-recent_wider w v now ts)
