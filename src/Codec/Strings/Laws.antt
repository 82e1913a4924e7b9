-- ===== src/Codec/Strings/Laws.antt =====
-- Reading what was encoded.
use milli.Base.{
  ℕ, ◌^◌, ◌<◌, Bool, true, false, List, [], ◌∷◌, ◌++◌, Option, some, length, length-append, take,
  drop, ltb, leb, ◌==◌, ◌≡◌, refl, sym, ap, ◌∙◌, arith,
}
use milli.Codec.BigEndian.{to_be_bytes, read_be_bytes-to_be_bytes, length-to_be_bytes}
use milli.Codec.Words.{try_split_at, try_split_array_at}
use milli.Codec.Strings.{
  take_number, is_empty, field_doc_id_facet_string_encode, field_doc_id_facet_string_decode,
  decode_prefix_string, zero_bounds_encode, decode_with_bounds, zero_bounds_decode,
}

take-front : (xs ys : List ℕ) → take (length xs) (xs ++ ys) ≡ xs
take-front [] ys = refl
take-front (x ∷ xs) ys = ap (λ k. x ∷ k) (take-front xs ys)

drop-front : (xs ys : List ℕ) → drop (length xs) (xs ++ ys) ≡ ys
drop-front [] ys = refl
drop-front (x ∷ xs) ys = drop-front xs ys

try_split_at-append : (xs ys : List ℕ) → try_split_at (xs ++ ys) (length xs) ≡ some (xs, ys)
unfolding try_split_at
try_split_at-append xs ys =
    let fits : leb (length xs) (length (xs ++ ys)) ≡ true = ground (arith, length-append xs ys) in
    rw (fits, take-front xs ys, drop-front xs ys) refl

try_split_array_at-append :
    (size : ℕ) (xs ys : List ℕ)
    → length xs ≡ size
    → try_split_array_at size (xs ++ ys) ≡ some (xs, ys)
unfolding try_split_array_at
try_split_array_at-append size xs ys e =
    let split : try_split_at (xs ++ ys) size ≡ some (xs, ys) =
      ap (λ n. try_split_at (xs ++ ys) n) (sym e) ∙ try_split_at-append xs ys in
    let same : (length xs == size) ≡ true = ground arith in
    rw (split, same, try_split_array_at) refl

pub take_number-append :
    (size n : ℕ) (rest : List ℕ)
    → n < 256 ^ size
    → take_number size (to_be_bytes size n ++ rest) ≡ some (n, rest)
unfolding take_number
take_number-append size n rest h =
    rw
      (
        try_split_array_at-append size (to_be_bytes size n) rest (length-to_be_bytes size n),
        read_be_bytes-to_be_bytes size n h,
      )
      refl

module _ (is_utf8 : List ℕ → Bool) where
  -- A key of field, document and value is read back.
  pub field_doc_id_facet_string_lem :
      (field_id document_id : ℕ) (value : List ℕ)
      → field_id < 2 ^ 16
      → document_id < 2 ^ 32
      → is_utf8 value ≡ true
      → (bytes : List ℕ) × (field_doc_id_facet_string_encode (field_id, document_id, value)
          ≡ some bytes)
        × (field_doc_id_facet_string_decode is_utf8 bytes ≡ some (field_id, document_id, value))
  unfolding field_doc_id_facet_string_encode field_doc_id_facet_string_decode
  field_doc_id_facet_string_lem field_id document_id value hf hd valid = (
    to_be_bytes 2 field_id ++ (to_be_bytes 4 document_id ++ value),
    refl,
    rw
        (
          take_number-append 2 field_id (to_be_bytes 4 document_id ++ value) (omega arith),
          take_number-append 4 document_id value (omega arith),
          valid,
        )
        refl,
  )

  pub decode_prefix_string-append :
      (string rest : List ℕ)
      → length string < 2 ^ 16
      → is_utf8 string ≡ true
      → decode_prefix_string is_utf8 (to_be_bytes 2 (length string) ++ (string ++ rest))
        ≡ some (string, rest)
  unfolding decode_prefix_string
  decode_prefix_string-append string rest h valid =
      rw
        (
          take_number-append 2 (length string) (string ++ rest) (omega arith),
          try_split_at-append string rest,
          valid,
        )
        refl

  module _ {V : Type 0} (encode : V → Option (List ℕ)) (decode : List ℕ → Option V) where
    -- Bounds that are not empty and shorter than 2 ^ 16 bytes are read back, with a value whose bytes
    -- are read back.
    pub zero_bounds_decode-zero_bounds_encode :
        (left right value_bytes : List ℕ) (value : V)
        → is_empty left ≡ false
        → is_empty right ≡ false
        → length left < 2 ^ 16
        → length right < 2 ^ 16
        → is_utf8 left ≡ true
        → is_utf8 right ≡ true
        → encode value ≡ some value_bytes
        → decode value_bytes ≡ some value
        → (bytes : List ℕ) × (zero_bounds_encode is_utf8 encode decode (some (left, right), value)
            ≡ some bytes)
          × (zero_bounds_decode is_utf8 encode decode bytes ≡ some (some (left, right), value))
    unfolding zero_bounds_encode zero_bounds_decode decode_with_bounds
    zero_bounds_decode-zero_bounds_encode left right value_bytes value el er hl hr vl vr enc dec =
        let tail = left ++ (right ++ value_bytes) in
        let fits_left : ltb (length left) (2 ^ 16) ≡ true = ground arith in
        let fits_right : ltb (length right) (2 ^ 16) ≡ true = ground arith in
        (
          255 ∷ (to_be_bytes 2 (length left) ++ (to_be_bytes 2 (length right) ++ tail)),
          rw (el, er, fits_left, fits_right, enc) refl,
          rw
              (
                take_number-append 2 (length left) (to_be_bytes 2 (length right) ++ tail)
                    (omega arith),
                take_number-append 2 (length right) tail (omega arith),
                try_split_at-append left (right ++ value_bytes),
                try_split_at-append right value_bytes,
                vl,
                vr,
                dec,
              )
              refl,
        )
