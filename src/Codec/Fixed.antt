-- ===== src/Codec/Fixed.antt =====
-- Keys of a fixed layout: FacetLevelValueU32Codec (milli/src/heed_codec/facet/
-- facet_level_value_u32_codec.rs), FieldDocIdFacetF64Codec (field_doc_id_facet_f64_codec.rs) and
-- StrStrU8Codec (str_str_u8_codec.rs). Where the code would panic on a key that is too short, there
-- is no result.
use milli.Base.{
  ℕ, ◌^◌, ◌<◌, Bool, true, false, not, List, [], ◌∷◌, ◌++◌, Option, none, some, take, drop, ◌==◌,
  if◌then◌else◌, ◌≡◌, refl, sym, arith, append_assoc, All,
}
use milli.Codec.BigEndian.{to_be_bytes, read_be_bytes-to_be_bytes}
use milli.Codec.Floats.{is_finite, ordered, f64_into_bytes, f64_into_bytes-ordered}
use milli.Codec.Words.{try_split_at, try_split_array_at}
use milli.Codec.Levels.{try_read}
use milli.Codec.Strings.{take_number, guard, split_first, ◌>>=◌}

unfoldable pub level_u32_encode : ℕ × ℕ × ℕ × ℕ → Option (List ℕ)
level_u32_encode (field_id, level, left, right) = some (
    to_be_bytes 2 field_id
    ++ (level
        ∷ (to_be_bytes 4 left
            ++ (to_be_bytes 4 right ++ (to_be_bytes 4 left ++ to_be_bytes 4 right)))))

unfoldable pub level_u32_decode : List ℕ → Option (ℕ × ℕ × ℕ × ℕ)
unfolding take_number try_read
level_u32_decode bytes = take_number 2 bytes >>= λ (field_id, rest).
    split_first rest >>= λ (level, rest). guard (not (level == 0)) (
      try_read 4 (take 4 (drop 8 rest)) >>= λ left.
      try_read 4 (drop 12 rest) >>= λ right. some (field_id, level, left, right))

unfoldable pub field_doc_id_facet_f64_encode : ℕ × ℕ × ℕ → Option (List ℕ)
unfolding f64_into_bytes
field_doc_id_facet_f64_encode (field_id, document_id, value) =
    f64_into_bytes value >>= λ value_bytes.
    some (
      to_be_bytes 2 field_id ++ (to_be_bytes 4 document_id ++ (value_bytes ++ to_be_bytes 8 value)))

unfoldable pub field_doc_id_facet_f64_decode : List ℕ → Option (ℕ × ℕ × ℕ)
unfolding take_number try_read
field_doc_id_facet_f64_decode bytes = take_number 2 bytes >>= λ (field_id, rest).
    take_number 4 rest >>= λ (document_id, rest).
    try_read 8 (take 8 (drop 8 rest)) >>= λ value. some (field_id, document_id, value)

unfoldable pub str_str_u8_encode : List ℕ × List ℕ × ℕ → Option (List ℕ)
str_str_u8_encode (s1, s2, n) = some (s1 ++ (0 ∷ (s2 ++ (n ∷ []))))

-- `split_last`.
unfoldable pub split_last : List ℕ → Option (ℕ × List ℕ)
split_last [] = none
split_last (byte ∷ bytes) = elim (split_last bytes) [
  | none ↦ some (byte, [])
  | some (last, front) ↦ some (last, byte ∷ front)
]

-- What stands before and after the first byte 0.
unfoldable pub split_zero : List ℕ → Option (List ℕ × List ℕ)
split_zero [] = none
split_zero (byte ∷ bytes) =
    let rest = split_zero bytes in
    if byte == 0 then some ([], bytes) else (rest >>= λ (front, back). some (byte ∷ front, back))

unfoldable pub str_str_u8_decode : (List ℕ → Bool) → List ℕ → Option (List ℕ × List ℕ × ℕ)
unfolding split_last split_zero
str_str_u8_decode is_utf8 bytes = split_last bytes >>= λ (n, rest).
    split_zero rest >>= λ (s1, s2). guard (is_utf8 s1) (guard (is_utf8 s2) (some (s1, s2, n)))

-- A key of a group of strings is read back.
pub level_u32_lem :
    (field_id level left right : ℕ)
    → field_id < 2 ^ 16
    → 0 < level
    → left < 2 ^ 32
    → right < 2 ^ 32
    → (bytes : List ℕ) × (level_u32_encode (field_id, level, left, right) ≡ some bytes)
      × (level_u32_decode bytes ≡ some (field_id, level, left, right))
unfolding level_u32_encode level_u32_decode try_read to_be_bytes take_number try_split_array_at
    try_split_at
level_u32_lem field_id level left right hf hv hl hr =
    let above : (level == 0) ≡ false = ground arith in
    let f = read_be_bytes-to_be_bytes 2 field_id (omega arith) in
    let l = read_be_bytes-to_be_bytes 4 left (omega arith) in
    let r = read_be_bytes-to_be_bytes 4 right (omega arith) in
    (
      to_be_bytes 2 field_id
          ++ (level
              ∷ (to_be_bytes 4 left
                  ++ (to_be_bytes 4 right ++ (to_be_bytes 4 left ++ to_be_bytes 4 right)))),
      refl,
      rw (above, f, l, r) refl,
    )

-- A key of a field, a document and a finite number is read back.
pub field_doc_id_facet_f64_lem :
    (field_id document_id value : ℕ)
    → field_id < 2 ^ 16
    → document_id < 2 ^ 32
    → value < 2 ^ 64
    → is_finite value ≡ true
    → (bytes : List ℕ) × (field_doc_id_facet_f64_encode (field_id, document_id, value) ≡ some bytes)
      × (field_doc_id_facet_f64_decode bytes ≡ some (field_id, document_id, value))
unfolding field_doc_id_facet_f64_encode field_doc_id_facet_f64_decode try_read to_be_bytes
    take_number try_split_array_at try_split_at
field_doc_id_facet_f64_lem field_id document_id value hf hd hv fin =
    let x = f64_into_bytes-ordered value hv fin in
    let f = read_be_bytes-to_be_bytes 2 field_id (omega arith) in
    let d = read_be_bytes-to_be_bytes 4 document_id (omega arith) in
    let v = read_be_bytes-to_be_bytes 8 value (omega arith) in
    (
      to_be_bytes 2 field_id
          ++ (to_be_bytes 4 document_id ++ (to_be_bytes 8 (ordered value) ++ to_be_bytes 8 value)),
      rw x refl,
      rw (f, d, v) refl,
    )

split_last-append : (bytes : List ℕ) (n : ℕ) → split_last (bytes ++ n ∷ []) ≡ some (n, bytes)
unfolding split_last
split_last-append [] n = refl
split_last-append (byte ∷ bytes) n = rw (split_last-append bytes n) refl

-- No byte is 0.
abbrev pub HasNoZero : List ℕ → Type 0
HasNoZero s = All (λ byte. 0 < byte) s

split_zero-append : (s1 s2 : List ℕ) → HasNoZero s1 → split_zero (s1 ++ 0 ∷ s2) ≡ some (s1, s2)
unfolding split_zero
split_zero-append [] s2 h = refl
split_zero-append (byte ∷ s1) s2 h =
    let other : (byte == 0) ≡ false = ground (arith, h.0) in
    rw (other, split_zero-append s1 s2 h.1) refl

-- Two texts and a number are read back, where the first text has no byte 0.
pub str_str_u8_decode-str_str_u8_encode :
    (is_utf8 : List ℕ → Bool) (s1 s2 : List ℕ) (n : ℕ)
    → HasNoZero s1
    → is_utf8 s1 ≡ true
    → is_utf8 s2 ≡ true
    → (bytes : List ℕ) × (str_str_u8_encode (s1, s2, n) ≡ some bytes)
      × (str_str_u8_decode is_utf8 bytes ≡ some (s1, s2, n))
unfolding str_str_u8_encode str_str_u8_decode
str_str_u8_decode-str_str_u8_encode is_utf8 s1 s2 n h v1 v2 =
    let whole : s1 ++ (0 ∷ (s2 ++ n ∷ [])) ≡ (s1 ++ 0 ∷ s2) ++ n ∷ [] =
      sym (append_assoc s1 (0 ∷ s2) (n ∷ [])) in
    (
      s1 ++ (0 ∷ (s2 ++ n ∷ [])),
      refl,
      rw (whole, split_last-append (s1 ++ 0 ∷ s2) n, split_zero-append s1 s2 h, v1, v2) refl,
    )
