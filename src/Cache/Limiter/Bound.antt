-- ===== src/Cache/Limiter/Bound.antt =====
-- What clients of `memLimiter.Allow` see over a whole history of requests.
use fxcore.Prelude.{
  ℕ, ◌+◌, ◌*◌, ◌≤◌, ◌<◌, ◌≡◌, refl, subst, ◌∙◌, true, String, List, [], ◌∷◌, arith, lt→ltb,
  if◌then◌else◌, length,
}
use fxcore.Prelude.Dict.{lookup}
use fxcore.Cache.Limiter.{Limiter, Outcome, denied, entries, recent, refuse, allow, new}
use fxcore.Cache.Limiter.Window.{recent-recent, length-recent_mono, length-recent-le}
use fxcore.Cache.Limiter.Refines.{History, admit, is_allowed, IsSound, refused_by, allow_refines}

-- Each key has its limit, as `rateLimits` gives one for each kind of request.
abbrev pub Limits : Type 0
Limits = String → ℕ

abbrev pub outcome_history : Outcome → String → ℕ → History → History
outcome_history o key now h = if is_allowed o then admit key now h else h

-- The requests admitted by a history of calls, and the limiter after it.
unfoldable pub run : ℕ → Limits → List (ℕ × String) → History → Limiter → History × Limiter
run window limits [] h l = (h, l)
run window limits ((now, key) ∷ cs) h l =
    let (o, l') = allow now key (limits key) window l in
    run window limits cs (outcome_history o key now h) l'

abbrev pub nothing : History
nothing k = []

pub new-IsSound : (window : ℕ) → IsSound window 0 nothing new
unfolding entries
new-IsSound window = record {
  is_map = tt;
  kept = λ k. unfold lookup in (tt, tt);
  tracks = λ k t u. unfold lookup in refl;
}

-- A refusal tells how long the oldest instant in the window stays there.
refuse_waits :
    (window now : ℕ) (ts : List ℕ) (r limit : ℕ)
    → refuse window now ts ≡ denied r
    → length ts ≤ limit
    → length (recent window (now + 1000 * r) ts) < limit
refuse_waits window now [] r limit e b = cc
refuse_waits window now (t ∷ ts) r limit e b =
    let gone : t + window < now + 1000 * r = ground arith in
    ground (arith, gone, length-recent-le window (now + 1000 * r) ts)

-- A client that is refused with `Retry-After: r`, and whose limit has been kept so far, is admitted
-- `r` seconds later if no other request of its key comes between.
pub retry_admits :
    (window now : ℕ) (key : String) (limit : ℕ) (h : History) (l : Limiter) (before r : ℕ)
    → IsSound window before h l
    → before ≤ now
    → length (recent window before (h key)) ≤ limit
    → (allow now key limit window l).0 ≡ denied r
    → is_allowed (allow (now + 1000 * r) key limit window (allow now key limit window l).1).0 ≡ true
retry_admits window now key limit h l before r s le b e =
    let l' : Limiter = (allow now key limit window l).1 in
    let (refused, s') = allow_refines window now key limit h l before s le in
    let same : IsSound window now h l' = rw e at s' in
    let (admitted, s'') =
      allow_refines window (now + 1000 * r) key limit h l' now same (omega arith) in
    admitted
    ∙ lt→ltb _ _ (
        subst (λ ts. length ts < limit)
          (recent-recent window now (now + 1000 * r) (h key) (omega arith))
          (refuse_waits window now (recent window now (h key)) r limit
            (refused_by window now key limit h l before r s le e)
            (omega (arith, length-recent_mono window before now (h key) le))))
