-- ===== src/Base/Assoc.antt =====
-- Go maps with string keys, as association lists.
use mathlib.Core.Path.{◌≡◌, refl}
use mathlib.Core.List.{List, [], ◌∷◌}
use mathlib.Core.Option.{Option, none, some}
use Prim.Native.String.{String}
use native.Mathlib.Omega.{arith}
use text.Mathlib.Text.{◌==◌ as str_eq}
use text.Mathlib.TextEquality.{eq_iff}
use nrcc.Base.Tests.{if◌then◌else◌}

module _ {ℓ} {V : Type ℓ} where
  -- `delete(m, key)`
  unfoldable pub erase : String → List (String × V) → List (String × V)
  erase key [] = []
  erase key ((first, held) ∷ more) =
      if str_eq first key then erase key more else (first, held) ∷ erase key more

  -- `m[key]`, with its second result.
  unfoldable pub lookup : String → List (String × V) → Option V
  lookup key [] = none
  lookup key ((first, held) ∷ more) = if str_eq first key then some held else lookup key more

  pub lookup-erase :
      (key other : String) (entries : List (String × V))
      → lookup other (erase key entries) ≡ (if str_eq key other then none else lookup other entries)
  unfolding lookup erase
  lookup-erase key other [] = ground arith
  lookup-erase key other ((first, held) ∷ more) =
      ground
        (arith, lookup-erase key other more, eq_iff first key, eq_iff first other, eq_iff key other)

  -- `m[key] = value`
  unfoldable pub insert : String → V → List (String × V) → List (String × V)
  insert key value [] = (key, value) ∷ []
  insert key value ((first, held) ∷ more) =
      if str_eq first key then (key, value) ∷ more else (first, held) ∷ insert key value more

  pub lookup-insert :
      (key other : String) (value : V) (entries : List (String × V))
      → lookup other (insert key value entries)
        ≡ (if str_eq key other then some value else lookup other entries)
  unfolding lookup insert
  lookup-insert key other value [] = refl
  lookup-insert key other value ((first, held) ∷ more) = ground (
    arith,
    lookup-insert key other value more,
    eq_iff first key,
    eq_iff first other,
    eq_iff key other,
  )
