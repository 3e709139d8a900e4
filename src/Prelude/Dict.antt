-- ===== src/Prelude/Dict.antt =====
-- A Go map keyed by strings, as an association list. The list's order stands for one order of
-- iteration; Go promises none, so theorems about loops over a map hold for every list.
pub mod Laws
use Prim.Native.String.{String}
use text.Mathlib.Text.{◌==◌ as str_eq}
use mathlib.Core.Path.{◌≡◌}
use mathlib.Core.Bool.{Bool}
use mathlib.Core.Option.{Option, none, some}
use mathlib.Core.List.{List, [], ◌∷◌}
use fxcore.Prelude.Tests.{if◌then◌else◌}

abbrev pub Dict {ℓ} : Type ℓ → Type ℓ
Dict V = List (String × V)

module _ {ℓ} {V : Type ℓ} where
  -- `v, ok := m[k]`
  unfoldable pub lookup : (key : String) → Dict V → Option V
  lookup key [] = none
  lookup key (e ∷ rest) = if str_eq e.0 key then some e.1 else lookup key rest

  -- `m[k] = v`
  unfoldable pub insert : (key : String) → V → Dict V → Dict V
  insert key new [] = (key, new) ∷ []
  insert key new (e ∷ rest) = if str_eq e.0 key then (key, new) ∷ rest else e ∷ insert key new rest

  -- `delete(m, k)`
  unfoldable pub erase : (key : String) → Dict V → Dict V
  erase key [] = []
  erase key (e ∷ rest) = if str_eq e.0 key then erase key rest else e ∷ erase key rest

  -- `for k, v := range m { if drop(v) { delete(m, k) } }`
  unfoldable pub purge : (V → Bool) → Dict V → Dict V
  purge drop [] = []
  purge drop (e ∷ rest) = if drop e.1 then purge drop rest else e ∷ purge drop rest

  -- No key is listed twice.
  abbrev pub IsMap : Dict V → Type ℓ
  IsMap [] = Unit
  IsMap ((k, v) ∷ m) = (lookup k m ≡ none) × IsMap m
