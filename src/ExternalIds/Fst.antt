-- ===== src/ExternalIds/Fst.antt =====
-- The interface of the library of ordered maps that the external ids are kept in. The library is
-- not part of the repository: its operations are a parameter, and the laws are what its
-- documentation says and the code relies on.
use milli.Base.{
  ℕ, Bool, true, false, List, [], ◌∷◌, Option, none, some, All, if◌then◌else◌, ◌≡◌, ◌↔◌,
}

-- `IndexedValue`: the number of the map in the union, and its value.
pub record IndexedValue : Type 0 where
  pub index : ℕ
  pub value : ℕ

-- The values that a union of two maps gives for a key, in any order.
pub data Indexed : Option ℕ → Option ℕ → Option (List IndexedValue) → Type 0 where
  neither : Indexed none none none
  only_first : (u : ℕ) → Indexed (some u) none (some (record { index = 0; value = u } ∷ []))
  only_second : (v : ℕ) → Indexed none (some v) (some (record { index = 1; value = v } ∷ []))
  both :
      (u v : ℕ)
      → Indexed
          (some u)
          (some v)
          (some (record { index = 0; value = u } ∷ record { index = 1; value = v } ∷ []))
  both_swapped :
      (u v : ℕ)
      → Indexed
          (some u)
          (some v)
          (some (record { index = 1; value = v } ∷ record { index = 0; value = u } ∷ []))

-- Keys are byte strings, which the library compares; `build` is a `MapBuilder` that all entries are
-- inserted in, with `into_map`, and `union` what the stream of `a.op().add(b).union()` gives.
pub record FstLib : Type 1 where
  pub Key : Type 0
  pub key_eq : Key → Key → Bool
  pub key_lt : Key → Key → Bool
  pub Map : Type 0
  pub default : Map
  pub get : Key → Map → Option ℕ
  pub len : Map → ℕ
  pub is_empty : Map → Bool
  pub union : Map → Map → List (Key × List IndexedValue)
  pub build : List (Key × ℕ) → Option Map

module _ (fst : FstLib) where
  open fst use {Key, key_eq, key_lt}

  unfoldable pub lookup {ℓ} : {V : Type ℓ} → Key → List (Key × V) → Option V
  lookup key [] = none
  lookup key ((other, value) ∷ more) = if key_eq key other then some value else lookup key more

  -- The keys are in increasing order.
  abbrev pub IsIncreasing {ℓ} : {V : Type ℓ} → List (Key × V) → Type 0
  IsIncreasing [] = Unit
  IsIncreasing ((key, value) ∷ more) = All (λ e. key_lt key e.0 ≡ true) more × IsIncreasing more

pub record IsFst (fst : FstLib) : Type 0 where
  pub key_eq_iff : (j k : fst.Key) → (fst.key_eq j k ≡ true) ↔ (j ≡ k)
  pub key_lt_irrefl : (k : fst.Key) → fst.key_lt k k ≡ false
  pub get-default : (k : fst.Key) → fst.get k fst.default ≡ none
  pub is_empty_iff : (m : fst.Map) → (fst.is_empty m ≡ true) ↔ ((k : fst.Key) → fst.get k m ≡ none)
  pub union-IsIncreasing : (a b : fst.Map) → IsIncreasing fst (fst.union a b)
  pub lookup-union :
      (a b : fst.Map) (k : fst.Key)
      → Indexed (fst.get k a) (fst.get k b) (lookup fst k (fst.union a b))
  -- A builder fails only on a key that is not above the one before it.
  pub get-build :
      (entries : List (fst.Key × ℕ))
      → IsIncreasing fst entries
      → (m : fst.Map) × (fst.build entries ≡ some m)
        × ((k : fst.Key) → fst.get k m ≡ lookup fst k entries)
