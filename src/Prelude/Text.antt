-- ===== src/Prelude/Text.antt =====
-- Text that the program searches and cuts: the list of its code points. The places found and the
-- pieces cut are those of Go's `strings` on the same text in UTF-8, where a match begins and ends
-- between code points. `byte_len` is Go's `len`.
pub mod Search
pub mod Blank
use Prim.Native.Nat.{ℕ, zero, suc, ◌+◌}
use Prim.Native.Char.{code}
use Prim.Native.String.{String}
use mathlib.Core.Bool.{Bool, true, false, ◌&&◌, ◌||◌}
use mathlib.Core.Option.{Option, none, some}
use mathlib.Core.List.{List, [], ◌∷◌, ◌++◌, reverse}
use fxcore.Prelude.Tests.{ltb, leb, ◌==◌, if◌then◌else◌, is_some}

abbrev pub Text : Type 0
Text = List ℕ

abbrev pub codes : String → Text
codes String.[] = []
codes (String.◌∷◌ c s) = code c ∷ codes s

-- `strings.HasPrefix`, its arguments swapped
abbrev pub starts : Text → Text → Bool
starts [] s = true
starts (c ∷ cs) [] = false
starts (c ∷ cs) (d ∷ s) = c == d && starts cs s

abbrev pub next : Option ℕ → Option ℕ
next none = none
next (some n) = some (suc n)

-- `strings.Index`; `none` is -1
unfoldable pub index : Text → Text → Option ℕ
index [] sub = if starts sub [] then some 0 else none
index (c ∷ s) sub = if starts sub (c ∷ s) then some 0 else next (index s sub)

-- `strings.Contains`
abbrev pub contains : Text → Text → Bool
contains s sub = is_some (index s sub)

-- `unicode.IsSpace`
abbrev pub is_space : ℕ → Bool
is_space c =
    leb 9 c && leb c 13
    || (c == 0x20
        || c == 0x85
        || c == 0xA0
        || c == 0x1680
        || leb 0x2000 c && leb c 0x200A
        || c == 0x2028
        || c == 0x2029
        || c == 0x202F
        || c == 0x205F
        || c == 0x3000)

unfoldable pub trim_left : Text → Text
trim_left [] = []
trim_left (c ∷ s) = if is_space c then trim_left s else c ∷ s

-- `strings.TrimSpace`
abbrev pub trim_space : Text → Text
trim_space s = reverse (trim_left (reverse (trim_left s)))

-- The bytes of a code point in UTF-8.
abbrev width : ℕ → ℕ
width c = if ltb c 0x80 then 1 else if ltb c 0x800 then 2 else if ltb c 0x1_0000 then 3 else 4

unfoldable pub byte_len : Text → ℕ
byte_len [] = 0
byte_len (c ∷ s) = width c + byte_len s
