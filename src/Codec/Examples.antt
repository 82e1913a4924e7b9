-- ===== src/Codec/Examples.antt =====
-- Keys and values of facets.
use milli.Base.{ℕ, true, List, [], ◌∷◌, some, ◌==◌, if◌then◌else◌, ◌≡◌, refl, arith}
use milli.Codec.BigEndian.{bytes_ltb}
use milli.Codec.Floats.{f64_into_bytes, f64_ltb, f64_into_bytes-order}
use milli.Codec.Levels.{level_f64_encode, level_f64_decode, level_f64_decode-level_f64_encode}
use milli.Codec.Strings.{zero_bounds_encode, zero_bounds_decode}
use milli.Codec.Strings.Laws.{zero_bounds_decode-zero_bounds_encode}

-- 1.0 and -2.0.
abbrev one : ℕ
one = 0x3FF0000000000000

abbrev minus_two : ℕ
minus_two = 0xC000000000000000

f64_into_bytes-order_example :
    (x y : List ℕ) × (f64_into_bytes minus_two ≡ some x)
    × (f64_into_bytes one ≡ some y)
    × (bytes_ltb x y ≡ f64_ltb minus_two one)
f64_into_bytes-order_example =
    f64_into_bytes-order minus_two one (omega arith) (omega arith) refl refl

level_f64_decode-level_f64_encode_example :
    (bytes : List ℕ) × (level_f64_encode (7, 2, minus_two, one) ≡ some bytes)
    × (level_f64_decode bytes ≡ some (7, 2, minus_two, if 2 == 0 then minus_two else one))
level_f64_decode-level_f64_encode_example =
    level_f64_decode-level_f64_encode 7 2 minus_two one (omega arith) (omega arith) (omega arith)
      refl refl

zero_bounds_decode-zero_bounds_encode_example :
    (bytes : List ℕ) × (zero_bounds_encode
        (λ s. true)
        (λ (v : List ℕ). some v)
        (λ b. some b)
        (some (b'a' ∷ [], b'b' ∷ b'c' ∷ []), 9 ∷ [])
      ≡ some bytes)
    × (zero_bounds_decode (λ s. true) (λ (v : List ℕ). some v) (λ b. some b) bytes
        ≡ some (some (b'a' ∷ [], b'b' ∷ b'c' ∷ []), 9 ∷ []))
zero_bounds_decode-zero_bounds_encode_example =
    zero_bounds_decode-zero_bounds_encode (λ s. true) (λ v. some v) (λ b. some b) (b'a' ∷ [])
      (b'b' ∷ b'c' ∷ []) (9 ∷ []) (9 ∷ []) refl refl (omega arith) (omega arith) refl refl refl refl
