-- ===== src/Middleware/Tests.antt =====
-- Requests that pass and fail the checks, and the theorems about them at concrete inputs.
use fxcore.Prelude.{
  ℕ, ◌*◌, ◌≡◌, ◌≢◌, ◌↔◌, refl, false, Option, none, some, String, append, str_eq, [], ◌∷◌,
  if◌then◌else◌, arith,
}
use fxcore.Prelude.Int.{pos, negsuc, ◌-ℤ◌, ◌+ℤ◌}
use fxcore.Prelude.Dict.{lookup}
use fxcore.Cache.Nonce
use fxcore.Cache.Nonce.{NonceCache, blocked}
use fxcore.Middleware.Numbers.{parse_int, print_int, sub64}
use fxcore.Middleware.Sign.{
  User, Request, passed, out_of_window, message, nonce_key, second, require_signature,
}
use fxcore.Middleware.Sign.Checks.{IsSigned, passed_iff}
use fxcore.Middleware.Sign.Replay.{replay_refused, replay_accepted, resplit_accepted}

none≢some : {A : Type 0} {a : A} → none ≡ some a → ⊥
none≢some e = cc

numbers_test :
    (parse_int "-12" ≡ some (negsuc 11))
    × (parse_int "12a" ≡ none)
    × (parse_int "9223372036854775808" ≡ none)
    × (print_int (negsuc 1204) ≡ "-1205")
unfolding parse_int print_int
numbers_test = (refl, refl, refl, refl)

-- Any function may stand for the HMAC.
abbrev toy_hmac : String → String → String
toy_hmac secret text = append secret text

abbrev users : String → Option User
users id = if str_eq id "u1" then some (record { id = "u1"; sign_secret = "k" }) else none

-- A write request of the user `u1` with a timestamp of 1000 seconds.
abbrev order : Request
order = record {
  method = "POST";
  path = "/p";
  body = some "{}";
  x_timestamp = "1000";
  x_signature = "k1000/p{}n1";
  x_nonce = "n1";
  subject = some "u1";
}

order-IsSigned :
    (now : ℕ) → out_of_window now (pos 1000) ≡ false → IsSigned toy_hmac users now order
unfolding message parse_int print_int
order-IsSigned now inside = record {
  subject = "u1";
  user = record { id = "u1"; sign_secret = "k" };
  ts = pos 1000;
  body = "{}";
  has_subject = refl;
  is_known = refl;
  has_timestamp = refl;
  has_signature = refl;
  has_nonce = refl;
  is_short = refl;
  parses = refl;
  in_window = inside;
  is_readable = refl;
  matches = refl;
}

-- 1001 and 900 seconds after the epoch.
abbrev just_after : ℕ
just_after = 1001 * second

abbrev before : ℕ
before = 900 * second

inside_after : out_of_window just_after (pos 1000) ≡ false
unfolding out_of_window sub64 ◌-ℤ◌ ◌+ℤ◌
inside_after = refl

inside_before : out_of_window before (pos 1000) ≡ false
unfolding out_of_window sub64 ◌-ℤ◌ ◌+ℤ◌
inside_before = refl

nothing_blocked : (t : ℕ) (key : String) → blocked t key Nonce.new ≡ false
unfolding blocked lookup
nothing_blocked t key = refl

passes_after : (require_signature toy_hmac users just_after just_after order Nonce.new).0 ≡ passed
passes_after =
    (passed_iff toy_hmac users just_after just_after order Nonce.new tt refl).1
      (order-IsSigned just_after inside_after, nothing_blocked just_after _)

-- The body takes two seconds to be read.
passes_read :
    (require_signature toy_hmac users just_after (1003 * second) order Nonce.new).0 ≡ passed
passes_read =
    (passed_iff toy_hmac users just_after (1003 * second) order Nonce.new tt refl).1
      (order-IsSigned just_after inside_after, nothing_blocked (1003 * second) _)

passes_before : (require_signature toy_hmac users before before order Nonce.new).0 ≡ passed
passes_before =
    (passed_iff toy_hmac users before before order Nonce.new tt refl).1
      (order-IsSigned before inside_before, nothing_blocked before _)

passed_iff_example :
    ((require_signature toy_hmac users just_after just_after order Nonce.new).0 ≡ passed) ↔ (
      (g : IsSigned toy_hmac users just_after order) × (blocked just_after
          (nonce_key g.subject "n1")
          Nonce.new
        ≡ false))
passed_iff_example = passed_iff toy_hmac users just_after just_after order Nonce.new tt refl

-- Its timestamp does not parse.
abbrev garbled : Request
garbled = record order { x_timestamp = "soon" }

replay_refused_example :
    (require_signature toy_hmac users (1200 * second) (1201 * second) order (
      Nonce.run
        ((1100 * second, "x", 5) ∷ [])
        (require_signature toy_hmac users just_after (1003 * second) order Nonce.new).1)).0
    ≢ passed
unfolding parse_int
replay_refused_example =
    replay_refused toy_hmac users just_after (1003 * second) order Nonce.new (pos 1000)
      ((1100 * second, "x", 5) ∷ []) (1200 * second) (1201 * second) tt refl passes_read refl
      (omega arith) (omega arith) refl (omega arith) (omega arith) (omega arith)

-- The timestamp is 100 seconds ahead: at 1250 seconds the request passes again.
replay_accepted_example :
    (require_signature toy_hmac users
      (1250 * second)
      (1250 * second)
      order
      (require_signature toy_hmac users before before order Nonce.new).1).0
    ≡ passed
unfolding parse_int
replay_accepted_example =
    replay_accepted toy_hmac users before before order Nonce.new 1000 (1250 * second)
      (1250 * second) tt refl passes_before refl (omega arith) (omega arith) (omega arith)
      (omega arith)

-- The timestamp is in the past, and the body of the repetition is held back for three seconds.
held_back_test :
    (require_signature toy_hmac users
      (1299 * second)
      (1302 * second)
      order
      (require_signature toy_hmac users just_after just_after order Nonce.new).1).0
    ≡ passed
unfolding parse_int
held_back_test =
    replay_accepted toy_hmac users just_after just_after order Nonce.new 1000 (1299 * second)
      (1302 * second) tt refl passes_after refl (omega arith) (omega arith) (omega arith)
      (omega arith)

-- The body `{}n` and the nonce `1` pass with the signature of the body `{}` and the nonce `n1`.
resplit_accepted_example :
    (require_signature toy_hmac users just_after just_after
      (record order { body = some "{}n"; x_nonce = "1" })
      Nonce.new).0
    ≡ passed
unfolding order-IsSigned
resplit_accepted_example =
    resplit_accepted toy_hmac users just_after just_after order Nonce.new "{}" "n" "1"
      (order-IsSigned just_after inside_after) tt refl refl refl refl refl
      (nothing_blocked just_after _)
