-- ===== src/Codec/Strings.antt =====
-- Keys and values with strings (milli/src/heed_codec): beu32_str_codec.rs,
-- field_id_word_count_codec.rs, facet/facet_value_string_codec.rs,
-- facet/facet_string_level_zero_codec.rs, facet/field_doc_id_facet_string_codec.rs,
-- facet/facet_string_level_zero_value_codec.rs and facet/facet_string_zero_bounds_value_codec.rs.
-- Strings are their bytes; `is_utf8` is the test of `str::from_utf8`. A codec of values is given by
-- its two functions.
pub mod Laws
use milli.Base.{
  ℕ, zero, suc, ◌+◌, ◌^◌, Bool, true, false, not, ◌&&◌, ◌||◌, List, [], ◌∷◌, ◌++◌, Option, none,
  some, length, take, drop, ltb, leb, ◌==◌, if◌then◌else◌,
}
use milli.Codec.BigEndian.{to_be_bytes, read_be_bytes}
use milli.Codec.Words.{try_split_at, try_split_array_at}

infixl 5 ◌>>=◌
abbrev pub ◌>>=◌ : {A B : Type 0} → Option A → (A → Option B) → Option B
none >>= f = none
some a >>= f = f a

abbrev pub guard : {A : Type 0} → Bool → Option A → Option A
guard true o = o
guard false o = none

abbrev pub split_first : List ℕ → Option (ℕ × List ℕ)
split_first [] = none
split_first (byte ∷ bytes) = some (byte, bytes)

abbrev pub is_empty : List ℕ → Bool
is_empty [] = true
is_empty (byte ∷ bytes) = false

-- `u16::from_be_bytes` of the two bytes in front, and what follows them.
unfoldable pub take_number : ℕ → List ℕ → Option (ℕ × List ℕ)
unfolding try_split_array_at read_be_bytes
take_number size bytes =
    try_split_array_at size bytes >>= λ (head, tail). some (read_be_bytes 0 head, tail)

-- FieldIdWordCountCodec.
unfoldable pub field_id_word_count_encode : ℕ × ℕ → Option (List ℕ)
field_id_word_count_encode (field_id, word_count) = some (to_be_bytes 2 field_id ++ word_count ∷ [])

unfoldable pub field_id_word_count_decode : List ℕ → Option (ℕ × ℕ)
unfolding take_number
field_id_word_count_decode bytes = take_number 2 bytes >>= λ (field_id, rest).
    split_first rest >>= λ (word_count, nothing). some (field_id, word_count)

-- FacetValueStringCodec and FacetStringLevelZeroCodec.
unfoldable pub facet_value_string_encode : ℕ × List ℕ → Option (List ℕ)
facet_value_string_encode (field_id, value) = some (to_be_bytes 2 field_id ++ value)

unfoldable pub facet_string_level_zero_encode : ℕ × List ℕ → Option (List ℕ)
facet_string_level_zero_encode (field_id, value) = some (to_be_bytes 2 field_id ++ 0 ∷ value)

-- FieldDocIdFacetStringCodec.
unfoldable pub field_doc_id_facet_string_encode : ℕ × ℕ × List ℕ → Option (List ℕ)
field_doc_id_facet_string_encode (field_id, document_id, value) =
    some (to_be_bytes 2 field_id ++ (to_be_bytes 4 document_id ++ value))

-- BEU32StrCodec.
unfoldable pub beu32_str_encode : ℕ × List ℕ → Option (List ℕ)
beu32_str_encode (n, s) = some (to_be_bytes 4 n ++ s)

-- `encode_prefix_string`.
unfoldable pub encode_prefix_string : List ℕ → Option (List ℕ)
encode_prefix_string string =
    guard (ltb (length string) (2 ^ 16)) (some (to_be_bytes 2 (length string) ++ string))

module _ (is_utf8 : List ℕ → Bool) where
  unfoldable pub facet_value_string_decode : List ℕ → Option (ℕ × List ℕ)
  unfolding take_number
  facet_value_string_decode bytes =
      take_number 2 bytes >>= λ (field_id, value). guard (is_utf8 value) (some (field_id, value))

  unfoldable pub facet_string_level_zero_decode : List ℕ → Option (ℕ × List ℕ)
  unfolding take_number
  facet_string_level_zero_decode bytes = take_number 2 bytes >>= λ (field_id, rest).
      split_first rest >>= λ (level, value).
      guard (level == 0) (guard (is_utf8 value) (some (field_id, value)))

  unfoldable pub field_doc_id_facet_string_decode : List ℕ → Option (ℕ × ℕ × List ℕ)
  unfolding take_number
  field_doc_id_facet_string_decode bytes = take_number 2 bytes >>= λ (field_id, rest).
      take_number 4 rest >>= λ (document_id, value).
      guard (is_utf8 value) (some (field_id, document_id, value))

  -- A key of less than four bytes, where the code would panic, gives nothing.
  unfoldable pub beu32_str_decode : List ℕ → Option (ℕ × List ℕ)
  unfolding take_number
  beu32_str_decode bytes = take_number 4 bytes >>= λ (n, s). guard (is_utf8 s) (some (n, s))

  -- `decode_prefix_string`.
  unfoldable pub decode_prefix_string : List ℕ → Option (List ℕ × List ℕ)
  unfolding take_number try_split_at
  decode_prefix_string value = take_number 2 value >>= λ (original_length, bytes).
      try_split_at bytes original_length >>= λ (string, rest).
      guard (is_utf8 string) (some (string, rest))

  module _ {V : Type 0} (encode : V → Option (List ℕ)) (decode : List ℕ → Option V) where
    -- StringValueCodec.
    unfoldable pub string_value_encode : List ℕ × V → Option (List ℕ)
    unfolding encode_prefix_string
    string_value_encode (string, value) = encode value >>= λ value_bytes.
        encode_prefix_string string >>= λ bytes. some (bytes ++ value_bytes)

    unfoldable pub string_value_decode : List ℕ → Option (List ℕ × V)
    unfolding decode_prefix_string
    string_value_decode bytes =
        decode_prefix_string bytes >>= λ (string, rest). decode rest >>= λ item. some (string, item)

    -- FacetStringZeroBoundsValueCodec.
    unfoldable pub zero_bounds_encode : Option (List ℕ × List ℕ) × V → Option (List ℕ)
    zero_bounds_encode (none, value) = encode value >>= λ value_bytes. some (0 ∷ value_bytes)
    zero_bounds_encode (some (left, right), value) = guard (not (is_empty left || is_empty right)) (
        guard (ltb (length left) (2 ^ 16)) (
          guard (ltb (length right) (2 ^ 16)) (
            encode value >>= λ value_bytes. some (
              255
              ∷ (to_be_bytes 2 (length left)
                  ++ (to_be_bytes 2 (length right) ++ (left ++ (right ++ value_bytes))))))))

    unfoldable pub decode_with_bounds : List ℕ → Option (Option (List ℕ × List ℕ) × V)
    unfolding take_number try_split_at
    decode_with_bounds bytes = take_number 2 bytes >>= λ (left_len, rest).
        take_number 2 rest >>= λ (right_len, rest). try_split_at rest left_len >>= λ (left, rest).
        try_split_at rest right_len >>= λ (right, rest).
        guard (is_utf8 left)
          (guard (is_utf8 right) (decode rest >>= λ item. some (some (left, right), item)))

    unfoldable pub zero_bounds_decode : List ℕ → Option (Option (List ℕ × List ℕ) × V)
    unfolding decode_with_bounds
    zero_bounds_decode bytes = split_first bytes >>= λ (contains_bounds, rest).
        if contains_bounds == 0
        then (decode rest >>= λ item. some (none, item))
        else decode_with_bounds rest
