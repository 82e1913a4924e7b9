-- ===== src/Facet/Build.antt =====
-- The levels of facet numbers are made from level 0 (`compute_facet_number_levels` of
-- milli/src/update/facets.rs). The entries are those that are written for one field, level by level.
pub mod Groups
pub mod Loop
pub mod Index
use milli.Base.{
  ℕ, zero, suc, ◌+◌, ◌-◌, ◌/◌, ◌%◌, ◌^◌, Bool, true, false, not, List, [], ◌∷◌, length, leb, ◌==◌,
  if◌then◌else◌,
}
use milli.Bitmap.{Roaring}
use milli.Facet.{Entry}

module _ (r : Roaring) where
  open r use {Bitmap, new, len, union}

  abbrev pub number_entry : ℕ → ℕ → Bitmap → Entry Bitmap
  number_entry left right group_docids = record {
    left = left;
    right = right;
    docids = group_docids;
  }

  -- The loop over the entries of level 0, from index `i` on.
  unfoldable pub write_groups : ℕ → ℕ → ℕ → ℕ → Bitmap → List (Entry Bitmap) → List (Entry Bitmap)
  write_groups group_size i left right group_docids [] =
      if len group_docids == 0 then [] else number_entry left right group_docids ∷ []
  write_groups group_size i left right group_docids (z ∷ zs) = elim (i == 0) [
    | true ↦ write_groups group_size (suc i) z.left z.left (union group_docids z.docids) zs
    | false ↦ elim (i % group_size == 0) [
      | true ↦
          number_entry left right group_docids
          ∷ write_groups group_size (suc i) z.left z.left (union new z.docids) zs
      | false ↦ write_groups group_size (suc i) left z.left (union group_docids z.docids) zs
    ]
  ]

  -- `left` and `right` start as 0.0, whose ordered form has the highest bit only.
  unfoldable pub level_entries : ℕ → List (Entry Bitmap) → List (Entry Bitmap)
  unfolding write_groups
  level_entries group_size level_zero = write_groups group_size 0 (2 ^ 63) (2 ^ 63) new level_zero

  -- `first_level_size / group_size >= min_level_size`, of `take_while`.
  unfoldable pub is_level : ℕ → ℕ → ℕ → ℕ → Bool
  is_level level_group_size min_level_size first_level_size level =
      leb min_level_size (first_level_size / level_group_size ^ level)

  -- How many levels above level 0 are made; a level is a u8.
  unfoldable pub count_levels : ℕ → ℕ → ℕ → ℕ → ℕ → ℕ
  unfolding is_level
  count_levels level_group_size min_level_size first_level_size level zero = 0
  count_levels level_group_size min_level_size first_level_size level (suc rounds) =
      let rest = count_levels level_group_size min_level_size first_level_size (suc level) rounds in
      if is_level level_group_size min_level_size first_level_size level then suc rest else 0

  unfoldable pub highest_level : ℕ → ℕ → List (Entry Bitmap) → ℕ
  unfolding count_levels
  highest_level level_group_size min_level_size level_zero =
      count_levels level_group_size min_level_size (length level_zero) 1 255

  -- The database of the field after the levels are written.
  unfoldable pub compute_facet_number_levels : ℕ → ℕ → List (Entry Bitmap) → ℕ → List (Entry Bitmap)
  unfolding level_entries highest_level
  compute_facet_number_levels level_group_size min_level_size level_zero zero = level_zero
  compute_facet_number_levels level_group_size min_level_size level_zero (suc level) =
      if leb (suc level) (highest_level level_group_size min_level_size level_zero)
      then level_entries (level_group_size ^ suc level) level_zero
      else []
