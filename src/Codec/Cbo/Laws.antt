-- ===== src/Codec/Cbo/Laws.antt =====
-- Encoding, decoding and the size of one bitmap.
use milli.Base.{
  ℕ, ◌+◌, ◌*◌, ◌^◌, ◌≤◌, ◌<◌, Bool, true, false, ◌||◌, List, [], ◌∷◌, ◌++◌, some, length,
  length-append, leb, ◌≡◌, refl, ◌∙◌, arith, All, Bool-cases, inl, inr,
}
use milli.Bitmap.{Roaring, IsRoaring}
use milli.Bitmap.Numbers.{elem}
use milli.Codec.Bytes.{write_all, read_all, read_all-write_all, length-write_all}
use milli.Codec.Cbo.{threshold, serialized_size, serialize_into, insert_all, deserialize_from}

module _ (r : Roaring) (laws : IsRoaring r) (big : Bool) where
  open r use {Bitmap, contains, new, insert, len, iter, serialize, deserialize}

  pub contains-insert_all :
      (ns : List ℕ) (b : Bitmap) (n : ℕ)
      → All (λ n. n < 2 ^ 32) ns
      → contains (insert_all r big ns b) n ≡ contains b n || elem n ns
  unfolding insert_all
  contains-insert_all [] b n a = ground arith
  contains-insert_all (m ∷ ms) b n a =
      ground (arith, contains-insert_all ms (insert m b) n a.1, laws.contains-insert b m n a.0)

  -- A bitmap that was read from the plain numbers of `ns`.
  pub deserialize-plain :
      (ns : List ℕ)
      → length ns ≤ threshold
      → deserialize_from r big (write_all big ns)
        ≡ some (insert_all r big (read_all big (write_all big ns)) new)
  unfolding deserialize_from
  deserialize-plain ns short =
      let fits : leb (length (write_all big ns)) (threshold * 4) ≡ true =
        ground (arith, length-write_all big ns) in
      rw fits

  pub deserialize-long :
      (bytes : List ℕ) → 28 < length bytes → deserialize_from r big bytes ≡ deserialize bytes
  unfolding deserialize_from
  deserialize-long bytes long =
      let no_fit : leb (length bytes) (threshold * 4) ≡ false = ground arith in rw no_fit

  -- Decoded, the bytes give a bitmap of the same numbers.
  abbrev pub Decodes : List ℕ → (ℕ → Bool) → Type 0
  Decodes bytes holds =
      (c : Bitmap) × (deserialize_from r big bytes ≡ some c) × ((n : ℕ) → contains c n ≡ holds n)

  pub Decodes-plain :
      (ns : List ℕ)
      → length ns ≤ threshold
      → All (λ n. n < 2 ^ 32) ns
      → Decodes (write_all big ns) (λ n. elem n ns)
  Decodes-plain ns short fits =
      let read = read_all-write_all big ns fits in
      (
        insert_all r big (read_all big (write_all big ns)) new,
        deserialize-plain ns short,
        λ n. rw read (ground (arith, contains-insert_all ns new n fits, laws.contains-new n)),
      )

  pub Decodes-serialize :
      (b : Bitmap) (holds : ℕ → Bool)
      → 7 < len b
      → ((n : ℕ) → contains b n ≡ holds n)
      → Decodes (serialize b) holds
  Decodes-serialize b holds many same = (
    b,
    deserialize-long (serialize b) (laws.serialize_long b many) ∙ laws.deserialize-serialize b,
    same,
  )

  pub serialize_into-few :
      (b : Bitmap) (vec : List ℕ)
      → leb (len b) threshold ≡ true
      → serialize_into r big b vec ≡ vec ++ write_all big (iter b)
  unfolding serialize_into
  serialize_into-few b vec few = rw few

  pub serialize_into-many :
      (b : Bitmap) (vec : List ℕ)
      → leb (len b) threshold ≡ false
      → serialize_into r big b vec ≡ vec ++ serialize b
  unfolding serialize_into
  serialize_into-many b vec many = rw many

  -- A bitmap of any size, encoded and decoded again, holds the same numbers.
  pub deserialize-serialize_into : (b : Bitmap) → Decodes (serialize_into r big b []) (contains b)
  deserialize-serialize_into b = elim (Bool-cases (leb (len b) threshold)) [
    | inl few ↦
        rw (serialize_into-few b [] few)
          (go (Decodes-plain (iter b) (ground (arith, laws.len-iter b)) (laws.iter-fits b)))
    | inr many ↦
        rw (serialize_into-many b [] many)
          (Decodes-serialize b (contains b) (ground arith) (λ n. refl))
  ]
    where
      go :
          Decodes (write_all big (iter b)) (λ n. elem n (iter b))
          → Decodes (write_all big (iter b)) (contains b)
      go (c, e, same) = (c, e, λ n. same n ∙ laws.contains-iter b n)

  -- The size that is reserved is the number of bytes that are written.
  pub length-serialize_into :
      (b : Bitmap) (vec : List ℕ)
      → length (serialize_into r big b vec) ≡ length vec + serialized_size r big b
  unfolding serialized_size
  length-serialize_into b vec = elim (Bool-cases (leb (len b) threshold)) [
    | inl few ↦
        rw (serialize_into-few b vec few, few)
          (omega (
            arith,
            length-append vec (write_all big (iter b)),
            length-write_all big (iter b),
            laws.len-iter b,
          ))
    | inr many ↦
        rw (serialize_into-many b vec many, many)
          (omega (arith, length-append vec (serialize b), laws.length-serialize b))
  ]
