-- ===== src/Codec/Cbo.antt =====
-- The conditional bitmap format (milli/src/heed_codec/roaring_bitmap/cbo_roaring_bitmap_codec.rs): up
-- to seven numbers are written as they are, four bytes each, larger sets as the bitmap library does.
pub mod Laws
pub mod Merge
mod Examples
use milli.Base.{
  ℕ, ◌*◌, Bool, true, false, List, [], ◌∷◌, ◌++◌, Option, none, some, length, leb, ◌==◌,
  if◌then◌else◌,
}
use milli.Bitmap.{Roaring}
use milli.Bitmap.Numbers.{sort, dedup}
use milli.Codec.Bytes.{write_all, read_all}

abbrev pub threshold : ℕ
threshold = 7

-- `io::Result` with its error left out.
infixl 5 ◌>>=◌
abbrev ◌>>=◌ : {A B : Type 0} → Option A → (A → Option B) → Option B
none >>= f = none
some a >>= f = f a

-- `big` tells whether the machine is big endian.
module _ (r : Roaring) (big : Bool) where
  open r use {
    Bitmap, new, insert, len, iter, union, from_sorted_iter, extend, serialize, deserialize,
  }

  unfoldable pub serialized_size : Bitmap → ℕ
  serialized_size roaring =
      if leb (len roaring) threshold then len roaring * 4 else r.serialized_size roaring

  unfoldable pub serialize_into : Bitmap → List ℕ → List ℕ
  serialize_into roaring vec =
      if leb (len roaring) threshold
      then vec ++ write_all big (iter roaring)
      else vec ++ serialize roaring

  unfoldable pub insert_all : List ℕ → Bitmap → Bitmap
  insert_all [] bitmap = bitmap
  insert_all (n ∷ ns) bitmap = insert_all ns (insert n bitmap)

  unfoldable pub deserialize_from : List ℕ → Option Bitmap
  unfolding insert_all
  deserialize_from bytes =
      if leb (length bytes) (threshold * 4)
      then some (insert_all (read_all big bytes) new)
      else deserialize bytes

  -- The loop of `merge_into` over the slices.
  unfoldable pub merge_slices : List (List ℕ) → Bitmap → List ℕ → Option (Bitmap × List ℕ)
  merge_slices [] roaring vec = some (roaring, vec)
  merge_slices (bytes ∷ slices) roaring vec = elim (leb (length bytes) (threshold * 4)) [
    | true ↦ merge_slices slices roaring (vec ++ read_all big bytes)
    | false ↦ deserialize bytes >>= λ bitmap. merge_slices slices (union roaring bitmap) vec
  ]

  -- The values of `vec` alone, sorted and without repetitions.
  write_values : List ℕ → List ℕ → Option (List ℕ)
  write_values vec buffer =
      if leb (length vec) threshold
      then some (buffer ++ write_all big vec)
      else (from_sorted_iter vec >>= λ roaring. some (buffer ++ serialize roaring))

  unfoldable pub write_merged : Bitmap × List ℕ → List ℕ → Option (List ℕ)
  unfolding write_values
  write_merged (roaring, vec) buffer =
      if len roaring == 0
      then write_values (dedup (sort vec)) buffer
      else some (buffer ++ serialize (extend roaring vec))

  -- The buffer is what was there, with the merged values behind.
  unfoldable pub merge_into : List (List ℕ) → List ℕ → Option (List ℕ)
  unfolding merge_slices
  merge_into slices buffer = merge_slices slices new [] >>= λ merged. write_merged merged buffer

  -- The codec: `BytesDecode` and `BytesEncode`.
  unfoldable pub bytes_decode : List ℕ → Option Bitmap
  unfolding deserialize_from
  bytes_decode bytes = deserialize_from bytes

  unfoldable pub bytes_encode : Bitmap → Option (List ℕ)
  unfolding serialize_into
  bytes_encode item = some (serialize_into item [])
