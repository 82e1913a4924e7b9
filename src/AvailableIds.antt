-- ===== src/AvailableIds.antt =====
-- The document ids that are still free (milli/src/update/available_documents_ids.rs).
mod Order
mod Examples
use milli.Base.{ℕ, suc, ◌-◌, ◌^◌, List, [], ◌∷◌, ◌++◌, Option, none, some, leb, if◌then◌else◌}
use milli.Bitmap.{Roaring}

abbrev pub max_u32 : ℕ
max_u32 = 2 ^ 32 - 1

-- `RangeInclusive<u32>`, which is empty when the first bound is above the second.
pub record IdRange : Type 0 where
  pub first : ℕ
  pub last : ℕ

-- `Chain<IntoIter, RangeInclusive<u32>>`: the ids that are left of a bitmap, then the range.
pub record AvailableDocumentsIds : Type 0 where
  pub holes : List ℕ
  pub range : IdRange

-- `RangeInclusive::next`. The range that has given its last id is empty.
unfoldable pub next_in_range : ℕ → ℕ → Option (ℕ × IdRange)
next_in_range first last =
    if leb first last then some (first, record { first = (suc first); last = last }) else none

unfoldable pub next_after : List ℕ → IdRange → Option (ℕ × AvailableDocumentsIds)
unfolding next_in_range
next_after (id ∷ holes) range = some (id, record { holes = holes; range = range })
next_after [] range = elim (next_in_range range.first range.last) [
  | none ↦ none
  | some (id, left) ↦ some (id, record { holes = []; range = left })
]

-- The iterator's `next`.
unfoldable pub next : AvailableDocumentsIds → Option (ℕ × AvailableDocumentsIds)
unfolding next_after
next ids = next_after ids.holes ids.range

-- `checked_add`: the range behind the last id, `1..=0` when that is the largest of 32 bits.
unfoldable pub range_after : ℕ → IdRange
range_after last_id =
    if leb max_u32 last_id
    then record { first = 1; last = 0 }
    else record { first = (suc last_id); last = max_u32 }

module _ (r : Roaring) where
  open r use {Bitmap, new, iter, max_id, difference, from_range}

  unfoldable pub from_max : Bitmap → Option ℕ → AvailableDocumentsIds
  unfolding range_after
  from_max docids (some last_id) = record {
    holes = iter (difference (from_range last_id) docids);
    range = range_after last_id;
  }
  from_max docids none = record { holes = iter new; range = record { first = 0; last = max_u32 } }

  unfoldable pub from_documents_ids : Bitmap → AvailableDocumentsIds
  unfolding from_max
  from_documents_ids docids = from_max docids (max_id docids)
