-- ===== src/Middleware/RateLimit.antt =====
-- internal/middleware/ratelimit.go: the limits of each kind of request, a minute at a time, for each
-- client address and, behind the token check, each user. The limiter is the in-memory one.
use fxcore.Prelude.{
  ℕ, ◌≤◌, ◌≡◌, ◌↔◌, true, Option, none, some, String, append, str_eq, lt→ltb, ltb→lt, if◌then◌else◌,
  length, ◌<◌, sym, refl, ◌∙◌,
}
use fxcore.Cache.Limiter.{Limiter, Outcome, allowed, denied, panicked, recent, allow}
use fxcore.Cache.Limiter.Refines.{History, is_allowed, IsSound, allow_refines}
use fxcore.Middleware.ApiError.{ApiError, rate_limited}
use fxcore.Middleware.Numbers.{print_nat}

-- `header` is the value of `Retry-After`; `crashed` a panic of the limiter.
pub data Verdict : Type 0 where
  passed : Verdict
  limited : (header : String) → ApiError → Verdict
  crashed : Verdict

unfoldable pub rate_limits : String → Option ℕ
rate_limits kind =
    if str_eq kind "auth"
    then some 5
    else (if str_eq kind "refresh"
        then some 20
        else (if str_eq kind "read"
            then some 120
            else (if str_eq kind "write" then some 30 else none)))

-- `kind + ":" + c.ClientIP()`, and the user's id behind the token check.
pub limit_key : String → String → Option String → String
limit_key kind ip none = append kind (append ":" ip)
limit_key kind ip (some subject) = append (append kind (append ":" ip)) (append ":" subject)

pub minute : ℕ
minute = 60_000

abbrev answer : Outcome → Verdict
answer allowed = passed
answer (denied retry) =
    limited (print_nat retry)
      (rate_limited (append "too many requests, retry in " (append (print_nat retry) "s")))
answer panicked = crashed

abbrev limited_by : ℕ → String → Option ℕ → Limiter → Verdict × Limiter
limited_by now key none l = (passed, l)
limited_by now key (some limit) l = let (o, l') = allow now key limit minute l in (answer o, l')

pub rate_limit : ℕ → String → String → Option String → Limiter → Verdict × Limiter
rate_limit now kind ip subject l = limited_by now (limit_key kind ip subject) (rate_limits kind) l

passed-answer : (o : Outcome) → (answer o ≡ passed) ↔ (is_allowed o ≡ true)
passed-answer allowed = (λ h. refl, λ h. refl)
passed-answer (denied retry) = (λ h. cc, λ h. cc)
passed-answer panicked = (λ h. cc, λ h. cc)

-- A request of a known kind gets through exactly when its address, together with its user, has been
-- let through fewer times than the kind's limit in the last minute.
pub rate_limit_iff :
    (now : ℕ) (kind ip : String) (subject : Option String) (limit : ℕ) (h : History) (l : Limiter)
    (before : ℕ)
    → rate_limits kind ≡ some limit
    → IsSound minute before h l
    → before ≤ now
    → ((rate_limit now kind ip subject l).0 ≡ passed)
      ↔ (length (recent minute now (h (limit_key kind ip subject))) < limit)
unfolding rate_limit
rate_limit_iff now kind ip subject limit h l before known s le =
    let key = limit_key kind ip subject in
    let counted = (allow_refines minute now key limit h l before s le).0 in
    let o = (allow now key limit minute l).0 in
    rw known (
      λ p. ltb→lt _ _ (sym counted ∙ (passed-answer o).0 p),
      λ p. (passed-answer o).1 (counted ∙ lt→ltb _ _ p),
    )
