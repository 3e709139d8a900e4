-- ===== src/Cache/Limiter.antt =====
-- `memLimiter.Allow`: a sliding window of admitted requests for each key, in milliseconds.
-- A call is a step at its lock, with the instant that it read before: in the order of the locks the
-- instants may decrease.
pub mod Window
pub mod Refines
pub mod Bound
pub mod Near
pub mod Disorder
use fxcore.Prelude.{
  ℕ, ◌+◌, ◌-◌, ◌/◌, Bool, true, false, ◌||◌, Option, none, some, String, List, [], ◌∷◌, ◌++◌, ltb,
  leb, ◌==◌, if◌then◌else◌, length, select,
}
use fxcore.Prelude.Dict.{Dict, lookup, insert, purge}
use fxcore.Cache.{max_mem_keys}

pub record Limiter : Type 0 where
  pub keys : Dict (List ℕ)

abbrev pub new : Limiter
new = record { keys = [] }

-- `panicked` is the read `kept[0]` of an empty slice, which a limit of 0 reaches.
pub data Outcome : Type 0 where
  allowed : Outcome
  denied : ℕ → Outcome
  panicked : Outcome

-- `ts := l.keys[key]`, where a missing key reads as the nil slice.
abbrev or_nil : Option (List ℕ) → List ℕ
or_nil none = []
or_nil (some ts) = ts

unfoldable pub entries : String → Limiter → List ℕ
entries key l = or_nil (lookup key l.keys)

-- The last element, and a value for the empty slice.
abbrev pub last : ℕ → List ℕ → ℕ
last d [] = d
last d (t ∷ ts) = last t ts

-- `len(ts) == 0 || ts[len(ts)-1] < start`, with `start := now - windowMS`.
abbrev pub stale : ℕ → ℕ → List ℕ → Bool
stale window now [] = true
stale window now (t ∷ ts) = ltb (last t ts + window) now

-- `for _, t := range ts { if t >= start { kept = append(kept, t) } }`
abbrev pub recent : ℕ → ℕ → List ℕ → List ℕ
recent window now = select (λ t. leb now (t + window))

-- A kept instant plus the window is no less than `now`, so the subtraction is exact.
abbrev pub refuse : ℕ → ℕ → List ℕ → Outcome
refuse window now [] = panicked
refuse window now (t ∷ ts) =
    let retry = (t + window - now) / 1000 + 1 in if ltb retry 1 then denied 1 else denied retry

sweep : ℕ → ℕ → Limiter → Limiter
sweep window now l =
    if ltb max_mem_keys (length l.keys)
    then record { keys = purge (stale window now) l.keys }
    else l

unfoldable pub allow : ℕ → String → ℕ → ℕ → Limiter → Outcome × Limiter
unfolding sweep entries
allow now key limit window l =
    let swept = sweep window now l in
    let kept = recent window now (entries key swept) in
    if leb limit (length kept)
    then (refuse window now kept, record { keys = insert key kept swept.keys })
    else (allowed, record { keys = insert key (kept ++ (now ∷ [])) swept.keys })
