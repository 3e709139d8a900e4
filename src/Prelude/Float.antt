-- ===== src/Prelude/Float.antt =====
-- Go's `float64`: the operations that the program uses, as an interface. Nothing is assumed of them
-- beyond what a theorem names among its hypotheses. `Fixed` meets the interface with whole
-- ten-thousandths, so that the code can be run on concrete inputs; it has no NaN and no infinity.
use Prim.Native.Nat.{ℕ, suc, ◌*◌, ◌/◌, ◌^◌, ◌≤◌, ◌<◌}
use mathlib.Core.Path.{◌≡◌, refl}
use native.Mathlib.Omega.{arith}
use fxcore.Prelude.Tests.{◌==◌}
use mathlib.Core.Bool.{Bool, false}
use fxcore.Prelude.Int.{ℤ, pos, negsuc, neg_part, ◌+ℤ◌, ◌-ℤ◌, ◌*ℤ◌, quot, ltb_ℤ, leb_ℤ, eq_ℤ}

pub record Float64 (F : Type 0) : Type 0 where
  pub dec : ℕ → ℕ → F  -- the literal m * 10^-k
  pub add : F → F → F
  pub sub : F → F → F
  pub mul : F → F → F
  pub div : F → F → F
  pub lt : F → F → Bool
  pub le : F → F → Bool
  pub eq : F → F → Bool
  pub of_int : ℤ → F  -- float64(n)
  pub to_int : F → ℤ  -- int(f)
  pub is_nan : F → Bool
  pub is_inf : F → Bool

-- Counting by ones is exact below 2^53, and of those counts only that of 0 is zero.
pub record CountsExactly (F : Type 0) ⦃f : Float64 F⦄ : Type 0 where
  pub starts : f.of_int (pos 0) ≡ f.dec 0 0
  pub counts : (n : ℕ) → n < 2 ^ 53 → f.add (f.of_int (pos n)) (f.dec 1 0) ≡ f.of_int (pos (suc n))
  pub is_zero : (n : ℕ) → n ≤ 2 ^ 53 → f.eq (f.of_int (pos n)) (f.dec 0 0) ≡ (n == 0)

abbrev pub Fixed : Type 0
Fixed = ℤ

-- a / b towards zero, and 0 for b = 0.
abbrev fixed_div : ℤ → ℤ → ℤ
fixed_div a (pos b) = quot (a *ℤ pos 10_000) b
fixed_div a (negsuc b) = quot (pos 0 -ℤ a *ℤ pos 10_000) (neg_part (negsuc b))

instance abbrev pub fixed_float : Float64 Fixed
fixed_float = record {
  dec = λ m k. pos (m * 10_000 / 10 ^ k);
  add = ◌+ℤ◌;
  sub = ◌-ℤ◌;
  mul = λ a b. quot (a *ℤ b) 10_000;
  div = fixed_div;
  lt = ltb_ℤ;
  le = leb_ℤ;
  eq = eq_ℤ;
  of_int = λ n. n *ℤ pos 10_000;
  to_int = λ a. quot a 10_000;
  is_nan = λ a. false;
  is_inf = λ a. false;
}

pub fixed-CountsExactly : CountsExactly Fixed
unfolding ◌+ℤ◌ ◌*ℤ◌ quot
fixed-CountsExactly = record {
  starts = refl;
  counts = λ n below. ground arith;
  is_zero = λ n below. ground arith;
}
