-- ===== src/Middleware/Sign.antt =====
-- internal/middleware/sign.go: `RequireSignature`. The HMAC of Go's crypto library and the user table
-- are parameters. The clock is read twice, in nanoseconds: before the body is read, for the window of the
-- timestamp, and after it, at once with the use of the nonce.
pub mod Checks
pub mod Replay
use Prim.Native.String.{len}
use fxcore.Prelude.{
  ℕ, ◌*◌, ◌/◌, ◌^◌, Bool, ◌||◌, Option, none, some, String, append, str_eq, ltb, if◌then◌else◌, [],
}
use fxcore.Prelude.Int.{ℤ, pos, negsuc, ltb_ℤ}
use fxcore.Cache.Nonce.{NonceCache, add}
use fxcore.Middleware.ApiError.{ApiError, bad_request, token_invalid}
use fxcore.Middleware.Numbers.{parse_int, print_int, sub64}

-- The fields of `model.User` that the check reads.
pub record User : Type 0 where
  pub id : String
  pub sign_secret : String

-- `body` is `none` where reading fails, as it does past `maxBodyBytes`. `subject` is that of the
-- access token, if the request has passed `RequiresAuth`.
pub record Request : Type 0 where
  pub method : String
  pub path : String
  pub body : Option String
  pub x_timestamp : String
  pub x_signature : String
  pub x_nonce : String
  pub subject : Option String

-- `passed` is the call of `c.Next()`.
pub data Verdict : Type 0 where
  passed : Verdict
  refused : ApiError → Verdict

abbrev pub sign_window : ℕ
sign_window = 5 * 60

abbrev pub second : ℕ
second = 10 ^ 9

-- `method == GET || method == HEAD || method == OPTIONS`
abbrev pub is_safe : String → Bool
is_safe m = str_eq m "GET" || str_eq m "HEAD" || str_eq m "OPTIONS"

-- `delta > signWindow || delta < -signWindow`, with `delta := time.Now().Unix() - ts`.
unfoldable pub out_of_window : ℕ → ℤ → Bool
out_of_window now ts =
    let delta = sub64 (pos (now / second)) ts in
    ltb_ℤ (pos sign_window) delta || ltb_ℤ delta (negsuc 299)

-- `fmt.Sprintf("%d%s%s%s", ts, path, body, nonce)`
unfoldable pub message : ℤ → String → String → String → String
message ts path body nonce = append (print_int ts) (append path (append body nonce))

-- `"sig:" + claims.Subject + ":" + nonce`
unfoldable pub nonce_key : String → String → String
nonce_key subject nonce = append "sig:" (append subject (append ":" nonce))

module _ (hmac : String → String → String) (users : String → Option User) where
  -- The last steps: the one use of the nonce.
  unfoldable pub check_nonce : ℕ → String → String → NonceCache → Verdict × NonceCache
  check_nonce now subject nonce c =
      let (first, c') = add now (nonce_key subject nonce) (sign_window * second) c in
      (
        if first
            then passed
            else refused (bad_request "request replay detected (duplicate nonce)" []),
        c',
      )

  check_signature : ℕ → ℕ → Request → String → User → ℤ → String → NonceCache → Verdict × NonceCache
  unfolding check_nonce
  check_signature now used r subject u ts body c =
      let expect = hmac u.sign_secret (message ts r.path body r.x_nonce) in
      if str_eq expect r.x_signature
      then check_nonce used subject r.x_nonce c
      else (refused (bad_request "invalid X-Signature" []), c)

  check_body :
      ℕ → ℕ → Request → String → User → ℤ → Option String → NonceCache → Verdict × NonceCache
  unfolding check_signature
  check_body now used r subject u ts none c =
      (refused (bad_request "request body too large or unreadable" []), c)
  check_body now used r subject u ts (some body) c = check_signature now used r subject u ts body c

  check_timestamp : ℕ → ℕ → Request → String → User → Option ℤ → NonceCache → Verdict × NonceCache
  unfolding check_body
  check_timestamp now used r subject u none c = (refused (bad_request "invalid X-Timestamp" []), c)
  check_timestamp now used r subject u (some ts) c =
      if out_of_window now ts
      then (refused (bad_request "X-Timestamp out of ±5min window" []), c)
      else check_body now used r subject u ts r.body c

  check_headers : ℕ → ℕ → Request → String → User → NonceCache → Verdict × NonceCache
  unfolding check_timestamp
  check_headers now used r subject u c =
      if str_eq r.x_timestamp "" || str_eq r.x_signature "" || str_eq r.x_nonce ""
      then (refused (bad_request "missing X-Timestamp, X-Signature or X-Nonce header" []), c)
      else (if ltb 64 (len r.x_nonce)
          then (refused (bad_request "X-Nonce too long (max 64 chars)" []), c)
          else check_timestamp now used r subject u (parse_int r.x_timestamp) c)

  check_user : ℕ → ℕ → Request → String → Option User → NonceCache → Verdict × NonceCache
  unfolding check_headers
  check_user now used r subject none c = (refused (token_invalid "user not found"), c)
  check_user now used r subject (some u) c = check_headers now used r subject u c

  check_claims : ℕ → ℕ → Request → Option String → NonceCache → Verdict × NonceCache
  unfolding check_user
  check_claims now used r none c = (refused (token_invalid "missing auth context"), c)
  check_claims now used r (some subject) c = check_user now used r subject (users subject) c

  pub require_signature : ℕ → ℕ → Request → NonceCache → Verdict × NonceCache
  unfolding check_claims
  require_signature now used r c =
      if is_safe r.method then (passed, c) else check_claims now used r r.subject c
