-- ===== src/Codec/Cbo/Merge.antt =====
-- Merging encoded bitmaps gives the encoding of their union.
use milli.Base.{
  ℕ, ◌*◌, ◌^◌, ◌≤◌, ◌<◌, Bool, true, false, ◌||◌, List, [], ◌∷◌, ◌++◌, map, Option, some, length,
  leb, ◌==◌, ◌≡◌, refl, sym, ◌∙◌, arith, All, All-append, any, Bool-cases, inl, inr, ◌⊎◌,
}
use milli.Bitmap.{Roaring, IsRoaring}
use milli.Bitmap.Laws.{len-new, empty-contains}
use milli.Bitmap.Numbers.{
  elem, elem-append, IsSorted, length-le_of_subset, sort, dedup, elem-dedup-sort,
  dedup-sort-IsSorted, All-sort, All-dedup,
}
use milli.Codec.Bytes.{write_all, read_all-write_all, length-write_all}
use milli.Codec.Cbo.{
  threshold, serialize_into, merge_slices, write_values, write_merged, merge_into,
}
use milli.Codec.Cbo.Laws.{
  Decodes, Decodes-plain, Decodes-serialize, serialize_into-few, serialize_into-many,
}

module _ (r : Roaring) (laws : IsRoaring r) (big : Bool) where
  open r use {
    Bitmap, contains, new, len, iter, union, extend, serialize, deserialize, from_sorted_iter,
  }

  abbrev pub encode : Bitmap → List ℕ
  encode b = serialize_into r big b []

  -- A bitmap with the numbers of another is no smaller.
  len-le_of_subset :
      (a b : Bitmap) → ((n : ℕ) → contains a n ≡ true → contains b n ≡ true) → len a ≤ len b
  len-le_of_subset a b sub = omega (
    arith,
    laws.len-iter a,
    laws.len-iter b,
    length-le_of_subset (iter a) (iter b) (laws.iter-IsSorted a) (laws.iter-IsSorted b)
        (λ n h. laws.contains-iter b n ∙ sub n (sym (laws.contains-iter a n) ∙ h)),
  )

  -- The bitmap that is gathered is empty or too large for the plain format.
  abbrev Gathered : Bitmap → Type 0
  Gathered b = (len b ≡ 0) ⊎ (7 < len b)

  -- What the loop has gathered after the slices.
  abbrev Merged : (ℕ → Bool) → Option (Bitmap × List ℕ) → Type 0
  Merged holds o =
      (b : Bitmap) × (ns : List ℕ) × (o ≡ some (b, ns))
      × Gathered b
      × All (λ n. n < 2 ^ 32) ns
      × ((n : ℕ) → contains b n || elem n ns ≡ holds n)

  abbrev pub in_any : List Bitmap → ℕ → Bool
  in_any bs n = any (λ b. contains b n) bs

  step_few :
      (b roaring : Bitmap) (vec : List ℕ) (slices : List (List ℕ))
      → leb (len b) threshold ≡ true
      → merge_slices r big (encode b ∷ slices) roaring vec
        ≡ merge_slices r big slices roaring (vec ++ iter b)
  unfolding merge_slices
  step_few b roaring vec slices few =
      let same : encode b ≡ write_all big (iter b) = serialize_into-few r laws big b [] few in
      let fits : leb (length (write_all big (iter b))) (threshold * 4) ≡ true =
        ground (arith, length-write_all big (iter b), laws.len-iter b) in
      rw same
        (rw (fits, merge_slices) (rw (read_all-write_all big (iter b) (laws.iter-fits b)) refl))

  step_many :
      (b roaring : Bitmap) (vec : List ℕ) (slices : List (List ℕ))
      → leb (len b) threshold ≡ false
      → merge_slices r big (encode b ∷ slices) roaring vec
        ≡ merge_slices r big slices (union roaring b) vec
  unfolding merge_slices
  step_many b roaring vec slices many =
      let same : encode b ≡ serialize b = serialize_into-many r laws big b [] many in
      let long : 28 < length (serialize b) = laws.serialize_long b (ground arith) in
      let no_fit : leb (length (serialize b)) (threshold * 4) ≡ false = ground arith in
      rw same (rw (no_fit, merge_slices) (rw (laws.deserialize-serialize b) refl))

  -- The loop gathers the numbers of all bitmaps.
  merge_slices_lem :
      (bs : List Bitmap) (roaring : Bitmap) (vec : List ℕ)
      → Gathered roaring
      → All (λ n. n < 2 ^ 32) vec
      → Merged
          (λ n. (contains roaring n || elem n vec) || in_any bs n)
          (merge_slices r big (map encode bs) roaring vec)
  unfolding merge_slices
  merge_slices_lem [] roaring vec g fits = (roaring, vec, refl, g, fits, λ n. ground arith)
  merge_slices_lem (b ∷ bs) roaring vec g fits = elim (Bool-cases (leb (len b) threshold)) [
    | inl few ↦
        let (c, ns, e, g', fits', same) =
          merge_slices_lem bs roaring (vec ++ iter b) g
            (All-append (λ n. n < 2 ^ 32) vec (iter b) fits (laws.iter-fits b)) in
        (
          c,
          ns,
          step_few b roaring vec (map encode bs) few ∙ e,
          g',
          fits',
          λ n. ground (arith, same n, elem-append n vec (iter b), laws.contains-iter b n),
        )
    | inr many ↦
        let (c, ns, e, g', fits', same) =
          merge_slices_lem bs (union roaring b) vec
            (inr (
              omega (
                arith,
                len-le_of_subset b (union roaring b)
                    (λ n h. ground (arith, laws.contains-union roaring b n)),
                large b many,
              )))
            fits in
        (
          c,
          ns,
          step_many b roaring vec (map encode bs) many ∙ e,
          g',
          fits',
          λ n. ground (arith, same n, laws.contains-union roaring b n),
        )
  ]
    where
      large : (b : Bitmap) → leb (len b) threshold ≡ false → 7 < len b
      large b many = ground arith

  -- What is written for the values decodes to them.
  write_values_lem :
      (ns : List ℕ)
      → IsSorted ns
      → All (λ n. n < 2 ^ 32) ns
      → (bytes : List ℕ) × (write_values r big ns [] ≡ some bytes)
        × Decodes r laws big bytes (λ n. elem n ns)
  unfolding write_values
  write_values_lem ns sorted fits = elim (Bool-cases (leb (length ns) threshold)) [
    | inl few ↦ (write_all big ns, rw few refl, Decodes-plain r laws big ns (ground arith) fits)
    | inr many ↦
        let (b, e, same) = laws.contains-from_sorted_iter ns sorted fits in
        let no_shorter : length ns ≤ length (iter b) =
          length-le_of_subset ns (iter b) sorted (laws.iter-IsSorted b)
            (λ n h. laws.contains-iter b n ∙ same n ∙ h) in
        let size : 7 < len b = ground (arith, laws.len-iter b) in
        (
          serialize b,
          rw many (rw e refl),
          Decodes-serialize r laws big b (λ n. elem n ns) size same,
        )
  ]

  write_merged_lem :
      (b : Bitmap) (vec : List ℕ)
      → Gathered b
      → All (λ n. n < 2 ^ 32) vec
      → (bytes : List ℕ) × (write_merged r big (b, vec) [] ≡ some bytes)
        × Decodes r laws big bytes (λ n. contains b n || elem n vec)
  unfolding write_merged
  write_merged_lem b vec (inl none_held) fits =
      let (bytes, e, (c, e', same)) =
        write_values_lem (dedup (sort vec)) (dedup-sort-IsSorted vec)
          (All-dedup (λ n. n < 2 ^ 32) (sort vec) (All-sort (λ n. n < 2 ^ 32) vec fits)) in
      (
        bytes,
        rw none_held e,
        (
          c,
          e',
          λ n. ground (arith, same n, empty-contains r laws b none_held n, elem-dedup-sort n vec),
        ),
      )
  write_merged_lem b vec (inr large) fits =
      let held : (len b == 0) ≡ false = ground arith in
      let more = laws.contains-extend b vec fits in
      let size : 7 < len (extend b vec) =
        omega (arith, len-le_of_subset b (extend b vec) (λ n h. ground (arith, more n))) in
      (
        serialize (extend b vec),
        rw held refl,
        Decodes-serialize r laws big (extend b vec) (λ n. contains b n || elem n vec) size more,
      )

  -- Encoded bitmaps are merged without an error, and what is written decodes to a bitmap of the
  -- numbers that one of them holds.
  pub merge_into-Decodes :
      (bs : List Bitmap)
      → (bytes : List ℕ) × (merge_into r big (map encode bs) [] ≡ some bytes)
        × Decodes r laws big bytes (in_any bs)
  unfolding merge_into
  merge_into-Decodes bs =
      let (b, ns, e, g, fits, same) = merge_slices_lem bs new [] (inl (len-new r laws)) tt in
      let (bytes, e', (c, e'', same')) = write_merged_lem b ns g fits in
      (bytes, rw e e', (c, e'', λ n. ground (arith, same n, same' n, laws.contains-new n)))
