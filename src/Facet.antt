-- ===== src/Facet.antt =====
-- The levels of facet numbers: the range iterator (milli/src/search/facet/facet_number.rs) and the
-- search of a range through the levels (`explore_facet_number_levels` of
-- milli/src/search/facet/filter.rs). A number is an f64 given by the 64 bits of its globally ordered
-- form, which is how the keys order it, and zero has one sign; what is no finite number is left to
-- Facet/Numbers.antt. The database is
-- given by the entries of each level of one field, in the order of their keys.
pub mod Range
pub mod Explore
pub mod Build
pub mod Numbers
pub mod Evaluate
mod Examples
use milli.Base.{
  ℕ, zero, suc, ◌-◌, ◌^◌, Bool, true, false, ◌&&◌, ◌||◌, List, [], ◌∷◌, Option, none, some, ltb,
  leb, ◌==◌, if◌then◌else◌,
}
use milli.Bitmap.{Roaring}

-- `f64::MIN` and `f64::MAX`.
abbrev pub f64_min : ℕ
f64_min = 2 ^ 52

abbrev pub f64_max : ℕ
f64_max = 2 ^ 64 - 2 ^ 52 - 1

pub data Bound : Type 0 where
  included excluded : ℕ → Bound
  unbounded : Bound

-- A key without its field and level, and its documents. At level 0 both bounds are the value.
pub record Entry (D : Type 0) : Type 0 where
  pub left : ℕ
  pub right : ℕ
  pub docids : D

abbrev pub filter {ℓ} : {A : Type ℓ} → (A → Bool) → List A → List A
filter p [] = []
filter p (x ∷ xs) = if p x then x ∷ filter p xs else filter p xs

abbrev pub take_while {ℓ} : {A : Type ℓ} → (A → Bool) → List A → List A
take_while p [] = []
take_while p (x ∷ xs) = if p x then x ∷ take_while p xs else []

module _ {D : Type 0} where
  -- The order of keys: by both bounds, and at level 0 by the one that is stored.
  unfoldable pub key_leb : ℕ → ℕ → ℕ → Entry D → Bool
  key_leb level l m e =
      if level == 0 then leb l e.left else ltb l e.left || (l == e.left && leb m e.right)

  unfoldable pub key_ltb : ℕ → ℕ → ℕ → Entry D → Bool
  key_ltb level l m e =
      if level == 0 then ltb l e.left else ltb l e.left || (l == e.left && ltb m e.right)

  -- The left bound of the range, as `FacetNumberRange::new` makes it.
  unfoldable pub starts : ℕ → Bound → Entry D → Bool
  unfolding key_leb key_ltb
  starts level (included l) e = key_leb level l f64_min e
  starts level (excluded l) e = key_ltb level l f64_min e
  starts level unbounded e = key_leb level f64_min f64_min e

  -- The right bound of the range, the largest key of the level.
  unfoldable pub ends : ℕ → Entry D → Bool
  ends level e =
      if level == 0
      then leb e.left f64_max
      else ltb e.left f64_max || (e.left == f64_max && leb e.right f64_max)

  -- The test of `FacetNumberRange::next`.
  unfoldable pub must_be_returned : Bound → Entry D → Bool
  must_be_returned (included end) e = leb e.right end
  must_be_returned (excluded end) e = ltb e.right end
  must_be_returned unbounded e = true

  -- All that a `FacetNumberRange` gives.
  unfoldable pub number_range : (ℕ → List (Entry D)) → ℕ → Bound → Bound → List (Entry D)
  unfolding starts ends must_be_returned
  number_range db level left right =
      take_while (must_be_returned right)
        (filter (λ e. starts level left e && ends level e) (db level))

  -- `left_found` and `right_found` after the loop.
  unfoldable pub last_right : Entry D → List (Entry D) → ℕ
  last_right e [] = e.right
  last_right e (f ∷ found) = last_right f found

  unfoldable pub found_bounds : List (Entry D) → Option (ℕ × ℕ)
  unfolding last_right
  found_bounds [] = none
  found_bounds (e ∷ found) = some (e.left, last_right e found)

-- `(Included(l), Included(r)) if l == r`.
unfoldable pub is_exact : Bound → Bound → Bool
is_exact (included l) (included r) = l == r
is_exact _ _ = false

-- The requests that have no result.
unfoldable pub is_void : Bound → Bound → Bool
is_void (included l) (included r) = ltb r l
is_void (included l) (excluded r) = leb r l
is_void (excluded l) (excluded r) = leb r l
is_void (excluded l) (included r) = leb r l
is_void _ _ = false

-- `matches!(bound, Included(b) if b == found)`.
unfoldable pub is_included : Bound → ℕ → Bool
is_included (included b) found = b == found
is_included _ found = false

module _ (r : Roaring) where
  open r use {Bitmap, union}

  -- `*output |= docids` for all that was found.
  unfoldable pub union_all : Bitmap → List (Entry Bitmap) → Bitmap
  union_all output [] = output
  union_all output (e ∷ found) = union_all (union output e.docids) found

  module _ (db : ℕ → List (Entry Bitmap)) where
    unfoldable pub explore_level_zero : Bound → Bound → Bitmap → Bitmap
    unfolding is_void union_all number_range
    explore_level_zero left right output =
        if is_void left right then output else union_all output (number_range db 0 left right)

    -- The refinement on both sides of what was found; `deeper` is the search in the level below.
    unfoldable pub refine_right : (Bound → Bound → Bitmap → Bitmap) → Bound → ℕ → Bitmap → Bitmap
    unfolding is_included
    refine_right deeper right right_found output = elim (is_included right right_found) [
      | true ↦ output
      | false ↦ deeper (excluded right_found) right output
    ]

    unfoldable pub refine_left : (Bound → Bound → Bitmap → Bitmap) → Bound → ℕ → Bitmap → Bitmap
    unfolding is_included
    refine_left deeper left left_found output = elim (is_included left left_found) [
      | true ↦ output
      | false ↦ deeper left (excluded left_found) output
    ]

    unfoldable pub refine :
        (Bound → Bound → Bitmap → Bitmap) → Bound → Bound → Option (ℕ × ℕ) → Bitmap → Bitmap
    unfolding refine_left refine_right
    refine deeper left right none output = deeper left right output
    refine deeper left right (some (left_found, right_found)) output =
        refine_right deeper right right_found (refine_left deeper left left_found output)

    -- `explore_facet_number_levels`.
    unfoldable pub explore : ℕ → Bound → Bound → Bitmap → Bitmap
    unfolding explore_level_zero is_exact is_void union_all number_range found_bounds refine
    explore zero left right output = explore_level_zero left right output
    explore (suc level) left right output = elim (is_exact left right) [
      | true ↦ explore_level_zero left right output
      | false ↦ elim (is_void left right) [
        | true ↦ output
        | false ↦
            let found = number_range db (suc level) left right in
            refine (explore level) left right (found_bounds found) (union_all output found)
      ]
    ]
