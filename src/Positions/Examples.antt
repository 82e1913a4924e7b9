-- ===== src/Positions/Examples.antt =====
-- Runs at concrete positions, and the theorems at inputs that meet their hypotheses.
use milli.Base.{◌<◌, ◌^◌, ◌≡◌, refl, [], ◌∷◌, arith}
use milli.Positions.{
  relative_from_absolute_position, absolute_from_relative_position, positions_proximity,
  path_proximity,
}
use milli.Positions.RoundTrip.{relative-absolute}

packed : absolute_from_relative_position 3 7 ≡ 196615
unfolding absolute_from_relative_position
packed = refl

other_attribute : positions_proximity 65535 65536 ≡ 8
unfolding positions_proximity
other_attribute = refl

mixed_path : path_proximity (4 ∷ 6 ∷ 5 ∷ 65536 ∷ []) ≡ 12
unfolding path_proximity
mixed_path = refl

relative-absolute_example :
    (absolute_from_relative_position 3 7 < 2 ^ 32)
    × (relative_from_absolute_position (absolute_from_relative_position 3 7) ≡ (3, 7))
relative-absolute_example = relative-absolute 3 7 (omega arith) (omega arith)
