-- ===== src/Prelude/Dict.antt =====
-- Go's `map[string]V` as an association list with at most one live entry for a key. A read of a
-- missing key gives `none`; the sources never rely on the order of iteration over such a map
-- where these are used.
use Prim.Native.String.{String}
use mathlib.Core.Path.{◌≡◌, refl}
use mathlib.Core.Option.{Option, none, some}
use mathlib.Core.List.{List, [], ◌∷◌}
use native.Mathlib.Omega.{arith}
use text.Mathlib.Text.{◌==◌ as str_eq}
use text.Mathlib.TextEquality.{eq_iff}
use multi_agent_agent_hub.Prelude.Tests.{if◌then◌else◌}

abbrev pub Dict {ℓ} : Type ℓ → Type ℓ
Dict V = List (String × V)

abbrev pub empty {ℓ} : {V : Type ℓ} → Dict V
empty = []

module _ {ℓ} {V : Type ℓ} where
  unfoldable pub lookup : String → Dict V → Option V
  lookup key [] = none
  lookup key ((at, value) ∷ entries) = if str_eq at key then some value else lookup key entries

  unfoldable pub insert : String → V → Dict V → Dict V
  insert key new [] = (key, new) ∷ []
  insert key new ((at, old) ∷ entries) =
      let later = insert key new entries in
      if str_eq at key then (key, new) ∷ entries else (at, old) ∷ later

  -- `delete(m, key)`: every entry of the key goes.
  unfoldable pub erase : String → Dict V → Dict V
  erase key [] = []
  erase key ((at, value) ∷ entries) =
      let later = erase key entries in if str_eq at key then later else (at, value) ∷ later

  pub lookup-insert :
      (key other : String) (new : V) (entries : Dict V)
      → lookup other (insert key new entries)
        ≡ (if str_eq key other then some new else lookup other entries)
  unfolding insert lookup
  lookup-insert key other new [] = refl
  lookup-insert key other new ((at, old) ∷ entries) =
      let later = lookup-insert key other new entries in
      ground (arith, later, eq_iff at key, eq_iff key other, eq_iff at other)

  pub lookup-erase :
      (key other : String) (entries : Dict V)
      → lookup other (erase key entries) ≡ (if str_eq key other then none else lookup other entries)
  unfolding erase lookup
  lookup-erase key other [] = ground arith
  lookup-erase key other ((at, value) ∷ entries) =
      let later = lookup-erase key other entries in
      ground (arith, later, eq_iff at key, eq_iff at other, eq_iff key other)
