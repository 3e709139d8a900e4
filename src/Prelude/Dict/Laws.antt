-- ===== src/Prelude/Dict/Laws.antt =====
-- What a lookup sees after an insertion, a deletion and a purge.
use Prim.Native.String.{String}
use text.Mathlib.Text.{◌==◌ as str_eq}
use text.Mathlib.TextEquality.{eq_iff}
use mathlib.Core.Path.{◌≡◌, refl}
use mathlib.Core.Bool.{Bool}
use mathlib.Core.Option.{Option, none, some}
use mathlib.Core.List.{[], ◌∷◌}
use native.Mathlib.Omega.{arith}
use fxcore.Prelude.Tests.{if◌then◌else◌}
use fxcore.Prelude.Dict.{Dict, lookup, insert, erase, purge, IsMap}

module _ {ℓ} {V : Type ℓ} where
  pub lookup-insert :
      (key asked : String) (new : V) (m : Dict V)
      → lookup asked (insert key new m) ≡ (if str_eq key asked then some new else lookup asked m)
  unfolding lookup insert
  lookup-insert key asked new [] = refl
  lookup-insert key asked new (e ∷ rest) =
      let ih = lookup-insert key asked new rest in
      ground (arith, ih, eq_iff e.0 asked, eq_iff e.0 key, eq_iff key asked)

  pub lookup-erase :
      (key asked : String) (m : Dict V)
      → lookup asked (erase key m) ≡ (if str_eq key asked then none else lookup asked m)
  unfolding lookup erase
  lookup-erase key asked [] = ground arith
  lookup-erase key asked (e ∷ rest) =
      let ih = lookup-erase key asked rest in
      ground (arith, ih, eq_iff e.0 asked, eq_iff e.0 key, eq_iff key asked)

  -- What a purge keeps of a found value.
  abbrev pub keep : (V → Bool) → Option V → Option V
  keep drop none = none
  keep drop (some v) = if drop v then none else some v

  lookup-purge-none :
      (drop : V → Bool) (k : String) (m : Dict V)
      → lookup k m ≡ none
      → lookup k (purge drop m) ≡ none
  unfolding lookup purge
  lookup-purge-none drop k [] h = refl
  lookup-purge-none drop k ((i, w) ∷ m) h = ground (arith, lookup-purge-none drop k m)

  pub lookup-purge :
      (drop : V → Bool) (k : String) (m : Dict V)
      → IsMap m
      → lookup k (purge drop m) ≡ keep drop (lookup k m)
  unfolding lookup purge
  lookup-purge drop k [] u = refl
  lookup-purge drop k ((i, w) ∷ m) u =
      ground (arith, eq_iff i k, lookup-purge drop k m u.1, lookup-purge-none drop i m)

  pub insert-IsMap : (k : String) (v : V) (m : Dict V) → IsMap m → IsMap (insert k v m)
  unfolding lookup insert
  insert-IsMap k v [] u = (refl, tt)
  insert-IsMap k v ((i, w) ∷ m) u =
      ground (arith, eq_iff i k, eq_iff k i, insert-IsMap k v m u.1, lookup-insert k i v m)

  pub erase-IsMap : (k : String) (m : Dict V) → IsMap m → IsMap (erase k m)
  unfolding lookup erase
  erase-IsMap k [] u = tt
  erase-IsMap k ((i, w) ∷ m) u = ground (arith, eq_iff k i, erase-IsMap k m u.1, lookup-erase k i m)

  pub purge-IsMap : (drop : V → Bool) (m : Dict V) → IsMap m → IsMap (purge drop m)
  unfolding lookup purge
  purge-IsMap drop [] u = tt
  purge-IsMap drop ((i, w) ∷ m) u =
      ground (arith, purge-IsMap drop m u.1, lookup-purge-none drop i m)
