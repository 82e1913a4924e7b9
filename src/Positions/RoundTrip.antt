-- ===== src/Positions/RoundTrip.antt =====
-- Packing a field id and a word index into one position, and unpacking it.
use milli.Base.{ℕ, ◌+◌, ◌*◌, ◌/◌, ◌%◌, ◌^◌, ◌<◌, ◌≡◌, refl, ◌∙◌, arith}
use milli.Base.Bits.{bit_or_disjoint}
use milli.Positions.{relative_from_absolute_position, absolute_from_relative_position}

pub absolute_sum :
    (field_id relative : ℕ)
    → field_id < 2 ^ 16
    → relative < 2 ^ 16
    → absolute_from_relative_position field_id relative ≡ field_id * 2 ^ 16 + relative
unfolding absolute_from_relative_position
absolute_sum f r hf hr =
    let fits : f * 2 ^ 16 % 2 ^ 32 ≡ f * 2 ^ 16 = omega arith in
    rw fits (bit_or_disjoint 16 f r (2 ^ 16) refl hr)

-- For a field id and an index of 16 bits, the packed position fits 32 bits and unpacks to the two
-- numbers.
pub relative-absolute :
    (field_id relative : ℕ)
    → field_id < 2 ^ 16
    → relative < 2 ^ 16
    → (absolute_from_relative_position field_id relative < 2 ^ 32)
      × (relative_from_absolute_position (absolute_from_relative_position field_id relative)
          ≡ (field_id, relative))
unfolding relative_from_absolute_position
relative-absolute f r hf hr =
    (omega (arith, absolute_sum f r hf hr), rw (absolute_sum f r hf hr) (ground arith))

-- A 32 bit position is packed again from the parts that it unpacks to.
pub absolute-relative :
    (absolute : ℕ)
    → absolute < 2 ^ 32
    → absolute_from_relative_position
        (relative_from_absolute_position absolute).0
        (relative_from_absolute_position absolute).1
      ≡ absolute
unfolding relative_from_absolute_position
absolute-relative p h =
    absolute_sum (p / 2 ^ 16 % 2 ^ 16) (p % 2 ^ 16 % 2 ^ 16) (omega arith) (omega arith)
    ∙ omega arith
