-- ===== src/Middleware/Sign/Replay.antt =====
-- What a captured request is worth: when the nonce and the time window keep it out for good, and the
-- ways round them.
use Prim.Native.String.{len}
use text.Mathlib.TextLemmas.{append_assoc}
use native.Mathlib.Nat.{le_refl}
use mathlib.Core.Bool.{false≢true}
use mathlib.Core.Option.{some-injective}
use fxcore.Prelude.{
  ℕ, ◌+◌, ◌-◌, ◌*◌, ◌/◌, ◌^◌, ◌≤◌, ◌<◌, ◌≡◌, ◌≢◌, refl, sym, ap, subst, ◌∙◌, inl, inr, true, false,
  Option, some, String, append, str_eq, eq_iff, List, ltb, ltb→lt, arith, Bool-cases,
}
use fxcore.Prelude.Int.{ℤ, pos, negsuc, neg_part, ltb_ℤ, ◌-ℤ◌, ◌+ℤ◌}
use fxcore.Cache.Nonce.{
  NonceCache, Call, add, blocked, IsWell, IsTimed, last_time, run, add_refines, add_once,
  run-IsWell, add-IsWell,
}
use fxcore.Middleware.Numbers.{parse_int, print_int, sub64, parse_int_range}
use fxcore.Middleware.Sign.{
  User, Request, passed, is_safe, out_of_window, message, nonce_key, sign_window, second,
  check_nonce, require_signature,
}
use fxcore.Middleware.Sign.Checks.{IsSigned, signed_runs, passed_iff}

-- A timestamp before an instant has left the window five minutes after that instant.
past_leaves :
    (now t : ℕ) (ts : ℤ)
    → neg_part ts ≤ 2 ^ 63
    → t / second < 2 ^ 62
    → ltb_ℤ ts (pos (now / second)) ≡ true
    → now + sign_window * second ≤ t
    → out_of_window t ts ≡ true
unfolding out_of_window sub64 ◌-ℤ◌ ◌+ℤ◌
past_leaves now t (pos n) range early past late = ground arith
past_leaves now t (negsuc n) range early past late = ground arith

-- A timestamp that was in the window stays in it until it is five minutes old.
still_inside :
    (now t : ℕ) (ts : ℕ)
    → t / second < 2 ^ 62
    → now ≤ t
    → t / second ≤ ts + sign_window
    → ts ≤ now / second + sign_window
    → out_of_window t (pos ts) ≡ false
unfolding out_of_window sub64 ◌-ℤ◌ ◌+ℤ◌
still_inside now t ts early later inside near = ground arith

inside_near :
    (now ts : ℕ)
    → ts < 2 ^ 63
    → now / second < 2 ^ 62
    → out_of_window now (pos ts) ≡ false
    → ts ≤ now / second + sign_window
unfolding out_of_window sub64 ◌-ℤ◌ ◌+ℤ◌
inside_near now ts range early inside = ground arith

message-resplit :
    (ts : ℤ) (r : Request) (body front rest signed : String)
    → signed ≡ body
    → r.x_nonce ≡ append front rest
    → message ts r.path (append body front) rest ≡ message ts r.path signed r.x_nonce
unfolding message
message-resplit ts r body front rest signed eb split =
    ap (λ x. append (print_int ts) (append r.path x))
      (append_assoc body front rest
        ∙ sym (ap (append signed) split ∙ ap (λ b. append b (append front rest)) eb))

module _ (hmac : String → String → String) (users : String → Option User) where
  same_subject :
      (now t : ℕ) (r : Request) (g : IsSigned hmac users now r) (g' : IsSigned hmac users t r)
      → g.subject ≡ g'.subject
  same_subject now t r g g' = ground (arith, g.has_subject, g'.has_subject)

  -- What the first acceptance did to the cache.
  first_use :
      (now used : ℕ) (r : Request) (c : NonceCache) (g : IsSigned hmac users now r)
      → is_safe r.method ≡ false
      → (require_signature hmac users now used r c).1
        ≡ (add used (nonce_key g.subject r.x_nonce) (sign_window * second) c).1
  unfolding check_nonce
  first_use now used r c g unsafe = ap (λ o. o.1) (signed_runs hmac users now used r c unsafe g)

  -- A nonce that was free, and so was used, is blocked while it lives.
  blocked_again :
      (now t : ℕ) (key : String) (c : NonceCache) (cs : List Call)
      → IsWell c
      → blocked now key c ≡ false
      → IsTimed now cs
      → last_time now cs ≤ t
      → ltb t (now + sign_window * second) ≡ true
      → blocked t key (run cs (add now key (sign_window * second) c).1) ≡ false
      → ⊥
  blocked_again now t key c cs w free timed late soon open_again =
      let ttl = sign_window * second in
      let c' : NonceCache = (add now key ttl c).1 in
      let first = add_refines now now key ttl c key w (le_refl now) in
      let accepted : (add now key ttl c).0 ≡ true = ground (arith, first.1) in
      let second_use = add_once key ttl now c cs t ttl w accepted timed late (ltb→lt _ _ soon) in
      let r = add_refines t t key ttl (run cs c') key (run-IsWell cs c' first.0) (le_refl t) in
      ground (arith, r.1, second_use)

  left :
      (early t : ℕ) (r : Request) (ts : ℤ) (g : IsSigned hmac users t r)
      → parse_int r.x_timestamp ≡ some ts
      → ltb_ℤ ts (pos (early / second)) ≡ true
      → t / second < 2 ^ 62
      → early + sign_window * second ≤ t
      → ⊥
  left early t r ts g parsed past bound late =
      let e : g.ts ≡ ts = some-injective _ _ (sym g.parses ∙ parsed) in
      let inside : out_of_window t ts ≡ false = rw (← e) g.in_window in
      let range = (parse_int_range r.x_timestamp ts parsed).1 in
      false≢true (sym inside ∙ past_leaves early t ts range bound past late)

  -- A request is accepted, and its nonce is entered at an instant. It is refused whenever it comes
  -- again, if its timestamp lies before the second that precedes that instant by the time that the
  -- repetition takes between the check of its timestamp and the use of its nonce. No call of the
  -- nonce cache in between changes this, as long as the clock does not go back (and stays below
  -- 2^62 seconds).
  pub replay_refused :
      (now used : ℕ) (r : Request) (c : NonceCache) (ts : ℤ) (cs : List Call) (t again : ℕ)
      → IsWell c
      → is_safe r.method ≡ false
      → (require_signature hmac users now used r c).0 ≡ passed
      → parse_int r.x_timestamp ≡ some ts
      → t ≤ again
      → again - t ≤ used
      → ltb_ℤ ts (pos ((used - (again - t)) / second)) ≡ true
      → IsTimed used cs
      → last_time used cs ≤ again
      → t / second < 2 ^ 62
      → (require_signature hmac users t again r
          (run cs (require_signature hmac users now used r c).1)).0
        ≢ passed
  replay_refused now used r c ts cs t again w unsafe accepted parsed order short past timed late
        bound passes =
      let c' : NonceCache = (require_signature hmac users now used r c).1 in
      let (g, free) = (passed_iff hmac users now used r c w unsafe).0 accepted in
      let key = nonce_key g.subject r.x_nonce in
      let spent : c' ≡ (add used key (sign_window * second) c).1 =
        first_use now used r c g unsafe in
      let kept : IsWell c' =
        subst IsWell (sym spent) (add-IsWell used key (sign_window * second) c w) in
      let (g', free') =
        (passed_iff hmac users t again r (run cs c') (run-IsWell cs c' kept) unsafe).0 passes in
      elim (Bool-cases (ltb again (used + sign_window * second))) [
        | inl soon ↦ blocked_again used again key c cs w free timed late soon (
            subst (λ d. blocked again key (run cs d) ≡ false) spent
              (subst (λ s. blocked again (nonce_key s r.x_nonce) (run cs c') ≡ false)
                (sym (same_subject now t r g g')) free'))
        | inr gone ↦ left (used - (again - t)) t r ts g' parsed past bound (ground arith)
      ]

  -- The same request, signed, at another instant in its window.
  at_instant :
      (now t : ℕ) (r : Request) (g : IsSigned hmac users now r)
      → out_of_window t g.ts ≡ false
      → IsSigned hmac users t r
  at_instant now t r g inside = record {
    subject = g.subject;
    user = g.user;
    ts = g.ts;
    body = g.body;
    has_subject = g.has_subject;
    is_known = g.is_known;
    has_timestamp = g.has_timestamp;
    has_signature = g.has_signature;
    has_nonce = g.has_nonce;
    is_short = g.is_short;
    parses = g.parses;
    in_window = inside;
    is_readable = g.is_readable;
    matches = g.matches;
  }

  -- A request with a timestamp of 0 or more is accepted, and comes again to the cache that it
  -- left, with the same nonce. It is accepted a second time if its timestamp is no more than five
  -- minutes old when it is checked then, and its nonce is used five minutes or more after its
  -- first use, as long as the clock does not go back between the two checks (and stays below 2^62
  -- seconds). So it is where the timestamp lay ahead of the clock, or where the second body is
  -- held back.
  pub replay_accepted :
      (now used : ℕ) (r : Request) (c : NonceCache) (ts t again : ℕ)
      → IsWell c
      → is_safe r.method ≡ false
      → (require_signature hmac users now used r c).0 ≡ passed
      → parse_int r.x_timestamp ≡ some (pos ts)
      → now ≤ t
      → t / second ≤ ts + sign_window
      → used + sign_window * second ≤ again
      → t / second < 2 ^ 62
      → (require_signature hmac users t again r (require_signature hmac users now used r c).1).0
        ≡ passed
  unfolding at_instant
  replay_accepted now used r c ts t again w unsafe accepted parsed order inside late early =
      let (g, free) = (passed_iff hmac users now used r c w unsafe).0 accepted in
      let key = nonce_key g.subject r.x_nonce in
      let c' : NonceCache = (add used key (sign_window * second) c).1 in
      let r₁ = add_refines used again key (sign_window * second) c key w (omega arith) in
      let e : g.ts ≡ pos ts = some-injective _ _ (sym g.parses ∙ parsed) in
      let near =
        inside_near now ts (parse_int_range r.x_timestamp (pos ts) parsed).0 (ground arith)
          (rw (← e) g.in_window) in
      let g' = at_instant now t r g (rw e (still_inside now t ts early order inside near)) in
      let free' : blocked again key c' ≡ false = ground (arith, r₁.1, r₁.2, eq_iff key key) in
      rw (first_use now used r c g unsafe)
        ((passed_iff hmac users t again r c' r₁.0 unsafe).1 (g', free'))

  -- The signature covers the timestamp, the path, the body and the nonce run together. So a captured
  -- request still verifies when a front part of its nonce is moved to the end of its body; and the
  -- rest of the nonce is another nonce, which the cache has not seen.
  pub resplit_accepted :
      (now used : ℕ) (r : Request) (c : NonceCache) (body front rest : String)
      (g : IsSigned hmac users now r)
      → IsWell c
      → is_safe r.method ≡ false
      → g.body ≡ body
      → r.x_nonce ≡ append front rest
      → str_eq rest "" ≡ false
      → ltb 64 (len rest) ≡ false
      → blocked used (nonce_key g.subject rest) c ≡ false
      → (require_signature hmac users now used
          (record r { body = some (append body front); x_nonce = rest })
          c).0
        ≡ passed
  resplit_accepted now used r c body front rest g w unsafe eb split nonempty short free =
      let r' : Request = record r { body = some (append body front); x_nonce = rest } in
      let g' : IsSigned hmac users now r' = record {
        subject = g.subject;
        user = g.user;
        ts = g.ts;
        body = append body front;
        has_subject = g.has_subject;
        is_known = g.is_known;
        has_timestamp = g.has_timestamp;
        has_signature = g.has_signature;
        has_nonce = nonempty;
        is_short = short;
        parses = g.parses;
        in_window = g.in_window;
        is_readable = refl;
        matches =
            ap (hmac g.user.sign_secret) (message-resplit g.ts r body front rest g.body eb split)
            ∙ g.matches;
      } in
      (passed_iff hmac users now used r' c w unsafe).1 (g', free)
