-- ===== src/Base/BTree.antt =====
-- An ordered map of the standard library with numbers for keys, as the list of its entries.
use Prim.Native.Nat.{ℕ, ◌<◌}
use mathlib.Core.Path.{◌≡◌, refl}
use mathlib.Core.Option.{Option, none, some}
use mathlib.Core.List.{List, [], ◌∷◌}
use native.Mathlib.Omega.{arith}
use milli.Base.Tests.{if◌then◌else◌, ◌==◌, ltb}
use milli.Base.Lists.{All}

module _ {ℓ} {V : Type ℓ} where
  unfoldable pub lookup : ℕ → List (ℕ × V) → Option V
  lookup key [] = none
  lookup key ((old, value) ∷ more) = if old == key then some value else lookup key more

  unfoldable pub insert : ℕ → V → List (ℕ × V) → List (ℕ × V)
  insert key new [] = (key, new) ∷ []
  insert key new ((old, value) ∷ more) =
      if ltb key old
      then (key, new) ∷ (old, value) ∷ more
      else if key == old
      then (key, new) ∷ more
      else (old, value) ∷ insert key new more

  unfoldable pub remove : ℕ → List (ℕ × V) → List (ℕ × V)
  remove key [] = []
  remove key ((old, value) ∷ more) =
      let others = remove key more in if old == key then others else (old, value) ∷ others

  pub lookup-insert :
      (key other : ℕ) (new : V) (entries : List (ℕ × V))
      → lookup other (insert key new entries)
        ≡ (if key == other then some new else lookup other entries)
  unfolding lookup insert
  lookup-insert key other new [] = refl
  lookup-insert key other new ((old, value) ∷ more) =
      ground (arith, lookup-insert key other new more)

  pub lookup-remove :
      (key other : ℕ) (entries : List (ℕ × V))
      → lookup other (remove key entries) ≡ (if key == other then none else lookup other entries)
  unfolding lookup remove
  lookup-remove key other [] = ground arith
  lookup-remove key other ((old, value) ∷ more) = ground (arith, lookup-remove key other more)

  -- The keys stand in increasing order, each once.
  abbrev pub IsSorted : List (ℕ × V) → Type 0
  IsSorted [] = Unit
  IsSorted ((k, v) ∷ m) = All (λ e. k < e.0) m × IsSorted m

  abbrev pub KeysAbove : ℕ → List (ℕ × V) → Type 0
  KeysAbove k m = All (λ e. k < e.0) m

  KeysAbove-weaken : (k l : ℕ) (m : List (ℕ × V)) → k < l → KeysAbove l m → KeysAbove k m
  KeysAbove-weaken k l [] h a = tt
  KeysAbove-weaken k l ((j, v) ∷ m) h a = (omega arith, KeysAbove-weaken k l m h a.1)

  KeysAbove-insert :
      (l k : ℕ) (v : V) (m : List (ℕ × V)) → l < k → KeysAbove l m → KeysAbove l (insert k v m)
  unfolding insert
  KeysAbove-insert l k v [] h a = (h, tt)
  KeysAbove-insert l k v ((j, w) ∷ m) h a = ground (arith, KeysAbove-insert l k v m)

  KeysAbove-remove : (l k : ℕ) (m : List (ℕ × V)) → KeysAbove l m → KeysAbove l (remove k m)
  unfolding remove
  KeysAbove-remove l k [] a = tt
  KeysAbove-remove l k ((j, w) ∷ m) a = ground (arith, KeysAbove-remove l k m)

  pub insert-IsSorted : (k : ℕ) (v : V) (m : List (ℕ × V)) → IsSorted m → IsSorted (insert k v m)
  unfolding insert
  insert-IsSorted k v [] s = (tt, tt)
  insert-IsSorted k v ((j, w) ∷ m) s =
      ground (arith, insert-IsSorted k v m, KeysAbove-insert j k v m, KeysAbove-weaken k j m)

  pub remove-IsSorted : (k : ℕ) (m : List (ℕ × V)) → IsSorted m → IsSorted (remove k m)
  unfolding remove
  remove-IsSorted k [] s = tt
  remove-IsSorted k ((j, w) ∷ m) s = ground (arith, remove-IsSorted k m, KeysAbove-remove j k m)
