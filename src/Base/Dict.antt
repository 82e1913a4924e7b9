-- ===== src/Base/Dict.antt =====
-- A map of the standard library with texts for keys whose order is never observed, as the list of
-- its entries.
use Prim.Native.String.{String}
use mathlib.Core.Path.{◌≡◌, refl}
use mathlib.Core.Option.{Option, none, some}
use mathlib.Core.List.{List, [], ◌∷◌}
use native.Mathlib.Omega.{arith}
use text.Mathlib.Text.{◌==◌}
use text.Mathlib.TextEquality.{eq_iff}
use milli.Base.Tests.{if◌then◌else◌}

abbrev pub Entries {ℓ} : Type ℓ → Type ℓ
Entries V = List (String × V)

module _ {ℓ} {V : Type ℓ} where
  unfoldable pub lookup : String → Entries V → Option V
  lookup key [] = none
  lookup key ((name, value) ∷ more) = if name == key then some value else lookup key more

  unfoldable pub insert : String → V → Entries V → Entries V
  insert key new [] = (key, new) ∷ []
  insert key new ((name, value) ∷ more) =
      if name == key then (key, new) ∷ more else (name, value) ∷ insert key new more

  unfoldable pub remove : String → Entries V → Entries V
  remove key [] = []
  remove key ((name, value) ∷ more) =
      let others = remove key more in if name == key then others else (name, value) ∷ others

  pub lookup-insert :
      (key other : String) (new : V) (entries : Entries V)
      → lookup other (insert key new entries)
        ≡ (if key == other then some new else lookup other entries)
  unfolding lookup insert
  lookup-insert key other new [] = refl
  lookup-insert key other new ((name, value) ∷ more) = ground (
    arith,
    lookup-insert key other new more,
    eq_iff name key,
    eq_iff name other,
    eq_iff key other,
  )

  pub lookup-remove :
      (key other : String) (entries : Entries V)
      → lookup other (remove key entries) ≡ (if key == other then none else lookup other entries)
  unfolding lookup remove
  lookup-remove key other [] = ground arith
  lookup-remove key other ((name, value) ∷ more) =
      ground
        (arith, lookup-remove key other more, eq_iff name key, eq_iff name other, eq_iff key other)
