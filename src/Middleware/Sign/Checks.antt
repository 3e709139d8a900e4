-- ===== src/Middleware/Sign/Checks.antt =====
-- Which requests get past the signature check, and what a refusal costs.
use Prim.Native.String.{len}
use fxcore.Prelude.{
  ℕ, ◌*◌, ◌≡◌, refl, ◌↔◌, ◌⊎◌, inl, inr, true, false, Option, none, some, String, str_eq, eq_iff,
  eq_refl, ltb, ap, [], arith, Bool-cases,
}
use native.Mathlib.Nat.{le_refl}
use fxcore.Prelude.Int.{ℤ}
use fxcore.Cache.Nonce.{NonceCache, blocked, IsWell, add_refines}
use fxcore.Middleware.ApiError.{ApiError, bad_request, token_invalid}
use fxcore.Middleware.Numbers.{parse_int}
use fxcore.Middleware.Sign.{
  User, Request, Verdict, passed, refused, is_safe, out_of_window, message, nonce_key, sign_window,
  second, check_nonce, check_body, check_timestamp, check_headers, check_user, check_claims,
  require_signature,
}

module _ (hmac : String → String → String) (users : String → Option User) where
  -- What a request has to show at an instant, its nonce apart: a known user, the three headers, a
  -- timestamp in the window, a readable body, and the user's signature of them all.
  pub record IsSigned (now : ℕ) (r : Request) : Type 0 where
    pub subject : String
    pub user : User
    pub ts : ℤ
    pub body : String
    pub has_subject : r.subject ≡ some subject
    pub is_known : users subject ≡ some user
    pub has_timestamp : str_eq r.x_timestamp "" ≡ false
    pub has_signature : str_eq r.x_signature "" ≡ false
    pub has_nonce : str_eq r.x_nonce "" ≡ false
    pub is_short : ltb 64 (len r.x_nonce) ≡ false
    pub parses : parse_int r.x_timestamp ≡ some ts
    pub in_window : out_of_window now ts ≡ false
    pub is_readable : r.body ≡ some body
    pub matches : hmac user.sign_secret (message ts r.path body r.x_nonce) ≡ r.x_signature

  abbrev pub Refuses : Verdict × NonceCache → NonceCache → Type 0
  Refuses out c = (e : ApiError) × (out ≡ (refused e, c))

  module _ (now used : ℕ) (r : Request) (c : NonceCache) where
    body_cases :
        (subject : String) (u : User) (ts : ℤ) (b : Option String)
        → ((body : String) × (b ≡ some body)
            × (hmac u.sign_secret (message ts r.path body r.x_nonce) ≡ r.x_signature)
            × (check_body hmac users now used r subject u ts b c
                ≡ check_nonce hmac users used subject r.x_nonce c))
          ⊎ Refuses (check_body hmac users now used r subject u ts b c) c
    unfolding check_body
    body_cases subject u ts none = inr (bad_request "request body too large or unreadable" [], refl)
    body_cases subject u ts (some body) =
        let expect = hmac u.sign_secret (message ts r.path body r.x_nonce) in
        elim (Bool-cases (str_eq expect r.x_signature)) [
          | inl p ↦ inl (body, refl, (eq_iff expect r.x_signature).0 p, rw p)
          | inr p ↦ inr (bad_request "invalid X-Signature" [], rw p)
        ]

    timestamp_cases :
        (subject : String) (u : User) (parsed : Option ℤ)
        → ((ts : ℤ) × (body : String) × (parsed ≡ some ts)
            × (out_of_window now ts ≡ false)
            × (r.body ≡ some body)
            × (hmac u.sign_secret (message ts r.path body r.x_nonce) ≡ r.x_signature)
            × (check_timestamp hmac users now used r subject u parsed c
                ≡ check_nonce hmac users used subject r.x_nonce c))
          ⊎ Refuses (check_timestamp hmac users now used r subject u parsed c) c
    unfolding check_timestamp
    timestamp_cases subject u none = inr (bad_request "invalid X-Timestamp" [], refl)
    timestamp_cases subject u (some ts) = elim (Bool-cases (out_of_window now ts)) [
      | inl p ↦ inr (bad_request "X-Timestamp out of ±5min window" [], rw p)
      | inr p ↦ elim (body_cases subject u ts r.body) [
        | inl (body, read, signed, e) ↦ inl (ts, body, refl, p, read, signed, rw p e)
        | inr (x, e) ↦ inr (x, rw p e)
      ]
    ]

    headers_cases :
        (subject : String) (u : User)
        → r.subject ≡ some subject
        → users subject ≡ some u
        → ((g : IsSigned now r) × (g.subject ≡ subject)
            × (check_headers hmac users now used r subject u c
                ≡ check_nonce hmac users used subject r.x_nonce c))
          ⊎ Refuses (check_headers hmac users now used r subject u c) c
    unfolding check_headers
    headers_cases subject u has known = elim (Bool-cases (str_eq r.x_timestamp "")) [
      | inl t ↦ inr (missing, rw t)
      | inr t ↦ elim (Bool-cases (str_eq r.x_signature "")) [
        | inl s ↦ inr (missing, rw (t, s))
        | inr s ↦ elim (Bool-cases (str_eq r.x_nonce "")) [
          | inl n ↦ inr (missing, rw (t, s, n))
          | inr n ↦ elim (Bool-cases (ltb 64 (len r.x_nonce))) [
            | inl l ↦ inr (bad_request "X-Nonce too long (max 64 chars)" [], rw (t, s, n, l))
            | inr l ↦ elim (timestamp_cases subject u (parse_int r.x_timestamp)) [
              | inr (x, e) ↦ inr (x, rw (t, s, n, l) e)
              | inl (ts, body, parses, inside, read, signed, e) ↦ inl (
                record {
                  subject = subject;
                  user = u;
                  ts = ts;
                  body = body;
                  has_subject = has;
                  is_known = known;
                  has_timestamp = t;
                  has_signature = s;
                  has_nonce = n;
                  is_short = l;
                  parses = parses;
                  in_window = inside;
                  is_readable = read;
                  matches = signed;
                },
                refl,
                rw (t, s, n, l) e,
              )
            ]
          ]
        ]
      ]
    ]
      where
        missing : ApiError
        missing = bad_request "missing X-Timestamp, X-Signature or X-Nonce header" []

    user_cases :
        (subject : String) (found : Option User)
        → r.subject ≡ some subject
        → users subject ≡ found
        → ((g : IsSigned now r) × (g.subject ≡ subject)
            × (check_user hmac users now used r subject found c
                ≡ check_nonce hmac users used subject r.x_nonce c))
          ⊎ Refuses (check_user hmac users now used r subject found c) c
    unfolding check_user
    user_cases subject none has known = inr (token_invalid "user not found", refl)
    user_cases subject (some u) has known = headers_cases subject u has known

    -- A request with a body to protect either shows all that it has to, and its nonce decides, or is
    -- refused with the cache as it was.
    claims_cases :
        (claims : Option String)
        → r.subject ≡ claims
        → ((g : IsSigned now r) × (check_claims hmac users now used r claims c
              ≡ check_nonce hmac users used g.subject r.x_nonce c))
          ⊎ Refuses (check_claims hmac users now used r claims c) c
    unfolding check_claims
    claims_cases none has = inr (token_invalid "missing auth context", refl)
    claims_cases (some subject) has = elim (user_cases subject (users subject) has refl) [
      | inr x ↦ inr x
      | inl (g, same, e) ↦ inl (g, rw same e)
    ]

    pub require_cases :
        is_safe r.method ≡ false
        → ((g : IsSigned now r) × (require_signature hmac users now used r c
              ≡ check_nonce hmac users used g.subject r.x_nonce c))
          ⊎ Refuses (require_signature hmac users now used r c) c
    unfolding require_signature
    require_cases unsafe = rw unsafe (claims_cases r.subject refl)

    pub signed_runs :
        is_safe r.method ≡ false
        → (g : IsSigned now r)
        → require_signature hmac users now used r c
          ≡ check_nonce hmac users used g.subject r.x_nonce c
    unfolding require_signature
    signed_runs unsafe g = simp (
      unsafe, g.has_subject, g.is_known, g.has_timestamp, g.has_signature, g.has_nonce, g.is_short,
      g.parses, g.in_window, g.is_readable, g.matches, eq_refl,
    )

    safe_passes : is_safe r.method ≡ true → require_signature hmac users now used r c ≡ (passed, c)
    unfolding require_signature
    safe_passes safe = rw safe

    pub check_nonce-passed :
        (subject nonce : String)
        → IsWell c
        → ((check_nonce hmac users used subject nonce c).0 ≡ passed)
          ↔ (blocked used (nonce_key subject nonce) c ≡ false)
    unfolding check_nonce
    check_nonce-passed subject nonce w =
        let key = nonce_key subject nonce in
        let r = add_refines used used key (sign_window * second) c key w (le_refl used) in
        (λ h. ground (arith, r.1), λ h. ground (arith, r.1))

  -- A request that writes gets through exactly when it shows all that it has to when the window is
  -- checked, signed by its user, and its nonce is not in use once its body has been read.
  pub passed_iff :
      (now used : ℕ) (r : Request) (c : NonceCache)
      → IsWell c
      → is_safe r.method ≡ false
      → ((require_signature hmac users now used r c).0 ≡ passed)
        ↔ ((g : IsSigned now r) × (blocked used (nonce_key g.subject r.x_nonce) c ≡ false))
  passed_iff now used r c w unsafe = (forth, back)
    where
      forth :
          (require_signature hmac users now used r c).0 ≡ passed
          → (g : IsSigned now r) × (blocked used (nonce_key g.subject r.x_nonce) c ≡ false)
      forth h = elim (require_cases now used r c unsafe) [
        | inl (g, e) ↦ (g, (check_nonce-passed now used r c g.subject r.x_nonce w).0 (rw e at h))
        | inr (x, e) ↦ cc
      ]

      back :
          (g : IsSigned now r) × (blocked used (nonce_key g.subject r.x_nonce) c ≡ false)
          → (require_signature hmac users now used r c).0 ≡ passed
      back (g, free) =
          rw (signed_runs now used r c unsafe g)
            ((check_nonce-passed now used r c g.subject r.x_nonce w).1 free)

  -- A request that is not properly signed leaves no trace in the nonce cache, so it cannot fill it.
  pub unsigned_unchanged :
      (now used : ℕ) (r : Request) (c : NonceCache)
      → ¬ IsSigned now r
      → (require_signature hmac users now used r c).1 ≡ c
  unsigned_unchanged now used r c unsigned = elim (Bool-cases (is_safe r.method)) [
    | inl p ↦ safe_unchanged p
    | inr p ↦ elim (require_cases now used r c p) [
      | inl (g, e) ↦ absurd (unsigned g)
      | inr (x, e) ↦ ap (λ o. o.1) e
    ]
  ]
    where
      safe_unchanged : is_safe r.method ≡ true → (require_signature hmac users now used r c).1 ≡ c
      safe_unchanged p = ap (λ o. o.1) (safe_passes now used r c p)
