-- ===== src/Codec/Levels.antt =====
-- The keys of the levels of numbers: FacetLevelValueF64Codec (milli/src/heed_codec/facet/
-- facet_level_value_f64_codec.rs). Where the code would panic on a key that is too short, there is no
-- result.
use milli.Base.{
  ℕ, ◌^◌, ◌<◌, true, List, [], ◌∷◌, ◌++◌, Option, none, some, length, take, drop, ◌==◌,
  if◌then◌else◌, ◌≡◌, refl, arith, Bool-cases, inl, inr,
}
use milli.Codec.BigEndian.{to_be_bytes, read_be_bytes, read_be_bytes-to_be_bytes}
use milli.Codec.Floats.{is_finite, ordered, f64_into_bytes, f64_into_bytes-ordered}
use milli.Codec.Words.{try_split_at, try_split_array_at}

abbrev pub FacetKey : Type 0
FacetKey = ℕ × ℕ × ℕ × ℕ

-- The key of field, level, left and right bound, once the ordered bounds are known.
abbrev key_bytes : FacetKey → Option (List ℕ) → Option (List ℕ) → Option (List ℕ)
key_bytes (field_id, level, left, right) (some x) (some y) =
    if level == 0
    then some (to_be_bytes 2 field_id ++ level ∷ x ++ to_be_bytes 8 left)
    else some
        (to_be_bytes 2 field_id ++ level ∷ x ++ y ++ to_be_bytes 8 left ++ to_be_bytes 8 right)
key_bytes (field_id, level, left, right) (some x) none =
    if level == 0 then some (to_be_bytes 2 field_id ++ level ∷ x ++ to_be_bytes 8 left) else none
key_bytes (field_id, level, left, right) none y = none

unfoldable pub level_f64_encode : FacetKey → Option (List ℕ)
unfolding f64_into_bytes
level_f64_encode (field_id, level, left, right) =
    key_bytes (field_id, level, left, right) (f64_into_bytes left) (f64_into_bytes right)

-- `try_into().ok().map(from_be_bytes)` for a number of so many bytes.
unfoldable pub try_read : ℕ → List ℕ → Option ℕ
unfolding read_be_bytes
try_read size bytes = if length bytes == size then some (read_be_bytes 0 bytes) else none

abbrev join_bounds : ℕ → ℕ → Option ℕ → Option ℕ → Option FacetKey
join_bounds field_id level (some left) (some right) = some (field_id, level, left, right)
join_bounds field_id level _ _ = none

unfoldable pub decode_bounds : ℕ → ℕ → List ℕ → Option FacetKey
unfolding try_read
decode_bounds field_id level bytes =
    if level == 0
    then (let left = try_read 8 (drop 8 bytes) in join_bounds field_id level left left)
    else join_bounds field_id level (try_read 8 (take 8 (drop 16 bytes)))
        (try_read 8 (drop 24 bytes))

unfoldable pub decode_level : ℕ → List ℕ → Option FacetKey
unfolding decode_bounds
decode_level field_id [] = none
decode_level field_id (level ∷ bytes) = decode_bounds field_id level bytes

unfoldable pub level_f64_decode : List ℕ → Option FacetKey
unfolding decode_level try_split_array_at read_be_bytes
level_f64_decode bytes = elim (try_split_array_at 2 bytes) [
  | none ↦ none
  | some (field_id, rest) ↦ decode_level (read_be_bytes 0 field_id) rest
]

-- A key is read back; at level 0 the right bound is read as the left one.
pub level_f64_decode-level_f64_encode :
    (field_id level left right : ℕ)
    → field_id < 2 ^ 16
    → left < 2 ^ 64
    → right < 2 ^ 64
    → is_finite left ≡ true
    → is_finite right ≡ true
    → (bytes : List ℕ) × (level_f64_encode (field_id, level, left, right) ≡ some bytes)
      × (level_f64_decode bytes ≡ some (field_id, level, left, if level == 0 then left else right))
unfolding level_f64_encode level_f64_decode decode_level decode_bounds try_read to_be_bytes
    try_split_array_at try_split_at
level_f64_decode-level_f64_encode field_id level left right hf hl hr fl fr =
    let x = f64_into_bytes-ordered left hl fl in
    let y = f64_into_bytes-ordered right hr fr in
    let f = read_be_bytes-to_be_bytes 2 field_id (omega arith) in
    let l = read_be_bytes-to_be_bytes 8 left (omega arith) in
    let r = read_be_bytes-to_be_bytes 8 right (omega arith) in
    elim (Bool-cases (level == 0)) [
      | inl zero_level ↦ (
        to_be_bytes 2 field_id ++ level ∷ to_be_bytes 8 (ordered left) ++ to_be_bytes 8 left,
        rw (x, y, zero_level) refl,
        rw (zero_level, f, l) refl,
      )
      | inr above ↦ (
        to_be_bytes 2 field_id
            ++ level ∷ to_be_bytes 8 (ordered left)
            ++ to_be_bytes 8 (ordered right)
            ++ to_be_bytes 8 left
            ++ to_be_bytes 8 right,
        rw (x, y, above) refl,
        rw (above, f, l, r) refl,
      )
    ]
