-- ===== src/Middleware/Numbers.antt =====
-- What the middleware uses of Go's `strconv.ParseInt(s, 10, 64)`, of the verb `%d` and of the
-- difference of two `int64`.
use Prim.Native.Char.{code}
use mathlib.Core.WellFounded.{Acc}
use mathlib.Core.Logic.{dite}
use native.Mathlib.Decide.{dec_lt}
use fxcore.Prelude.{
  ℕ, zero, suc, ◌+◌, ◌-◌, ◌*◌, ◌/◌, ◌%◌, ◌^◌, ◌<◌, ◌≤◌, ◌≡◌, inl, inr, Bool-cases, ◌&&◌, Option,
  none, some, String, append, List, [], ◌∷◌, arith, ltb, leb, ◌==◌, if◌then◌else◌,
}
use fxcore.Prelude.Int.{ℤ, pos, negsuc, pos_part, neg_part, ◌-ℤ◌, ◌+ℤ◌, ltb_ℤ, leb_ℤ, sub_ℕ}

codes : String → List ℕ
codes String.[] = []
codes (String.◌∷◌ c s) = code c ∷ codes s

-- The digits left to right, after the value `n` of those read.
digits_from : ℕ → List ℕ → Option ℕ
digits_from n [] = some n
digits_from n (c ∷ cs) =
    let rest = digits_from (n * 10 + (c - b'0')) cs in
    if leb b'0' c && leb c b'9' then rest else none

digits : List ℕ → Option ℕ
digits [] = none
digits (c ∷ cs) = digits_from 0 (c ∷ cs)

abbrev positive : Option ℕ → Option ℤ
positive none = none
positive (some n) = if ltb n (2 ^ 63) then some (pos n) else none

abbrev negative : Option ℕ → Option ℤ
negative none = none
negative (some n) = if leb n (2 ^ 63) then some (sub_ℕ 0 n) else none

signed : List ℕ → Option ℤ
signed [] = none
signed (c ∷ cs) =
    if c == b'-'
    then negative (digits cs)
    else (if c == b'+' then positive (digits cs) else positive (digits (c ∷ cs)))

-- `none` is a syntax or range error.
unfoldable pub parse_int : String → Option ℤ
unfolding codes digits_from digits signed
parse_int s = signed (codes s)

digit : ℕ → String
digit zero = "0"
digit (suc zero) = "1"
digit (suc (suc zero)) = "2"
digit (suc (suc (suc zero))) = "3"
digit (suc (suc (suc (suc zero)))) = "4"
digit (suc (suc (suc (suc (suc zero))))) = "5"
digit (suc (suc (suc (suc (suc (suc zero)))))) = "6"
digit (suc (suc (suc (suc (suc (suc (suc zero))))))) = "7"
digit (suc (suc (suc (suc (suc (suc (suc (suc zero)))))))) = "8"
digit (suc (suc (suc (suc (suc (suc (suc (suc (suc n))))))))) = "9"

below_acc : (k n : ℕ) → n < k → Acc ◌<◌ n
below_acc zero n h = elim h [ ]
below_acc (suc k) n h = Acc.intro n (λ m hm. below_acc k m (omega arith))

decimal : (n : ℕ) → Acc ◌<◌ n → String → String
decimal n (Acc.intro _ smaller) rest =
    dite (dec_lt 9 n)
      (λ h. decimal (n / 10) (smaller (n / 10) (omega arith)) (append (digit (n % 10)) rest))
      (λ h. append (digit n) rest)

unfoldable pub print_nat : ℕ → String
unfolding below_acc decimal digit dec_lt
print_nat n = decimal n (below_acc (suc n) n (omega arith)) ""

unfoldable pub print_int : ℤ → String
unfolding print_nat
print_int (pos n) = print_nat n
print_int (negsuc n) = append "-" (print_nat (suc n))

-- The difference of two `int64` wraps around at most once.
unfoldable pub sub64 : ℤ → ℤ → ℤ
sub64 a b =
    let d = a -ℤ b in
    if leb_ℤ (pos (2 ^ 63)) d
    then d -ℤ pos (2 ^ 64)
    else (if ltb_ℤ d (pos 0 -ℤ pos (2 ^ 63)) then d +ℤ pos (2 ^ 64) else d)

positive_range :
    (d : Option ℕ) (n : ℤ) → positive d ≡ some n → (pos_part n < 2 ^ 63) × (neg_part n ≤ 2 ^ 63)
positive_range none n e = cc
positive_range (some d) n e = ground arith

negative_range :
    (d : Option ℕ) (n : ℤ) → negative d ≡ some n → (pos_part n < 2 ^ 63) × (neg_part n ≤ 2 ^ 63)
negative_range none n e = cc
negative_range (some d) n e = ground arith

signed_range :
    (cs : List ℕ) (n : ℤ) → signed cs ≡ some n → (pos_part n < 2 ^ 63) × (neg_part n ≤ 2 ^ 63)
unfolding signed
signed_range [] n e = cc
signed_range (c ∷ cs) n e = elim (Bool-cases (c == b'-')) [
  | inl p ↦ negative_range (digits cs) n (rw p at e)
  | inr p ↦ elim (Bool-cases (c == b'+')) [
    | inl q ↦ positive_range (digits cs) n (rw (p, q) at e)
    | inr q ↦ positive_range (digits (c ∷ cs)) n (rw (p, q) at e)
  ]
]

-- What is parsed is an `int64`.
pub parse_int_range :
    (s : String) (n : ℤ) → parse_int s ≡ some n → (pos_part n < 2 ^ 63) × (neg_part n ≤ 2 ^ 63)
unfolding parse_int
parse_int_range s n e = signed_range (codes s) n e
