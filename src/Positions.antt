-- ===== src/Positions.antt =====
-- Word positions (milli/src/lib.rs, lines 66 to 78) and the distance between the words of a path
-- (milli/src/proximity.rs). `Position` is a u32, `FieldId` and `RelativePosition` are u16.
pub mod RoundTrip
pub mod Distance
mod Examples
use Prim.Native.Nat.{bit_or}
use milli.Base.{ℕ, ◌+◌, ◌-◌, ◌*◌, ◌/◌, ◌%◌, ◌^◌, min, List, [], ◌∷◌, leb, ◌==◌, if◌then◌else◌}

-- `(absolute >> 16) as u16` and `(absolute & 0xFFFF) as u16`.
unfoldable pub relative_from_absolute_position : ℕ → ℕ × ℕ
relative_from_absolute_position absolute = (absolute / 2 ^ 16 % 2 ^ 16, absolute % 2 ^ 16 % 2 ^ 16)

-- `(field_id as u32) << 16 | (relative as u32)`.
unfoldable pub absolute_from_relative_position : ℕ → ℕ → ℕ
absolute_from_relative_position field_id relative = bit_or (field_id * 2 ^ 16 % 2 ^ 32) relative

abbrev pub max_distance : ℕ
max_distance = 8

unfoldable pub index_proximity : ℕ → ℕ → ℕ
index_proximity lhs rhs =
    if leb lhs rhs then min (rhs - lhs) max_distance else min (lhs - rhs + 1) max_distance

unfoldable pub positions_proximity : ℕ → ℕ → ℕ
unfolding relative_from_absolute_position index_proximity
positions_proximity lhs rhs =
    let (lhs_attr, lhs_index) = relative_from_absolute_position lhs in
    let (rhs_attr, rhs_index) = relative_from_absolute_position rhs in
    if lhs_attr == rhs_attr then index_proximity lhs_index rhs_index else max_distance

-- The sum over `path.windows(2)`.
unfoldable pub path_proximity : List ℕ → ℕ
unfolding positions_proximity
path_proximity [] = 0
path_proximity (p ∷ []) = 0
path_proximity (p ∷ q ∷ path) = positions_proximity p q + path_proximity (q ∷ path)
