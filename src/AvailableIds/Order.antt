-- ===== src/AvailableIds/Order.antt =====
-- The free ids come one by one, each once, in increasing order.
use milli.Base.{
  ℕ, suc, ◌^◌, ◌≤◌, ◌<◌, Bool, true, false, not, ◌&&◌, ◌||◌, List, [], ◌∷◌, Option, none, some, leb,
  ltb, ◌==◌, ◌≡◌, refl, arith, All, Bool-cases, inl, inr, ◌⊎◌, Option-cases,
}
use milli.Bitmap.{Roaring, IsRoaring}
use milli.Bitmap.Numbers.{elem, IsSorted}
use milli.AvailableIds.{
  max_u32, IdRange, AvailableDocumentsIds, next_in_range, next_after, next, range_after, from_max,
  from_documents_ids,
}

-- The ids that the iterator will still give.
abbrev pub is_left : AvailableDocumentsIds → ℕ → Bool
is_left ids n = elem n ids.holes || (leb ids.range.first n && leb n ids.range.last)

-- The holes are in increasing order and below the range, unless the range is empty.
abbrev pub Ascends : List ℕ → IdRange → Type 0
Ascends holes range =
    IsSorted holes × (All (λ n. n < range.first) holes ⊎ (range.last < range.first))

abbrev pub IsAscending : AvailableDocumentsIds → Type 0
IsAscending ids = Ascends ids.holes ids.range

-- What a call of `next` gives: nothing when no id is left, else the least id that is left, and
-- after it the others are left.
abbrev pub Gives : AvailableDocumentsIds → Option (ℕ × AvailableDocumentsIds) → Type 0
Gives ids none = (n : ℕ) → is_left ids n ≡ false
Gives ids (some (id, rest)) =
    (is_left ids id ≡ true)
    × ((n : ℕ) → n < id → is_left ids n ≡ false)
    × ((n : ℕ) → is_left rest n ≡ is_left ids n && not (n == id))
    × IsAscending rest

elem-below : (id n : ℕ) (holes : List ℕ) → All (λ m. id < m) holes → n ≤ id → elem n holes ≡ false
elem-below id n [] a l = refl
elem-below id n (m ∷ holes) a l = ground (arith, elem-below id n holes a.1 l)

next_in_range_lem :
    (range : IdRange)
    → Gives (record { holes = []; range = range }) (next (record { holes = []; range = range }))
unfolding next next_after next_in_range
next_in_range_lem range = elim (Bool-cases (leb range.first range.last)) [
  | inl more ↦
      rw (more, next_after) (ground arith, λ n l. ground arith, λ n. ground arith, (tt, inl tt))
  | inr over ↦ rw (over, next_after) (λ n. ground arith)
]

next_after_lem :
    (holes : List ℕ) (range : IdRange)
    → Ascends holes range
    → Gives
        (record { holes = holes; range = range })
        (next (record { holes = holes; range = range }))
unfolding next next_after
next_after_lem [] range up = next_in_range_lem range
next_after_lem (id ∷ holes) range ((above, sorted), inl below) = (
  ground arith,
  λ n l. ground (arith, elem-below id n holes above),
  λ n. ground (arith, elem-below id id holes above),
  (sorted, inl below.1),
)
next_after_lem (id ∷ holes) range ((above, sorted), inr empty) = (
  ground arith,
  λ n l. ground (arith, elem-below id n holes above),
  λ n. ground (arith, elem-below id id holes above),
  (sorted, inr empty),
)

-- While the holes are in increasing order below the range, `next` gives nothing only when no id is
-- left, and else the least id that is left; after it the other ids are left, in such an order.
pub Gives-next : (ids : AvailableDocumentsIds) → IsAscending ids → Gives ids (next ids)
Gives-next ids up = next_after_lem ids.holes ids.range up

module _ (r : Roaring) (laws : IsRoaring r) where
  open r use {Bitmap, contains, new, iter, max_id, difference, from_range}

  -- What holds of the iterator that is made for the documents.
  abbrev pub ListsFree : Bitmap → AvailableDocumentsIds → Type 0
  ListsFree docids ids =
      IsAscending ids × ((n : ℕ) → n < 2 ^ 32 → is_left ids n ≡ not (contains docids n))

  All-elem : (P : ℕ → Type 0) (ns : List ℕ) → ((n : ℕ) → elem n ns ≡ true → P n) → All P ns
  All-elem P [] h = tt
  All-elem P (n ∷ ns) h = (h n (ground arith), All-elem P ns (λ m e. h m (ground arith)))

  ListsFree-none :
      (docids : Bitmap) → max_id docids ≡ none → ListsFree docids (from_max r docids none)
  unfolding from_max
  ListsFree-none docids e = (
    (
      laws.iter-IsSorted new,
      inl (
          All-elem (λ n. n < 0) (iter new)
            (λ n h. ground (arith, laws.contains-iter new n, laws.contains-new n))),
    ),
    λ n l.
        ground (arith, laws.contains-iter new n, laws.contains-new n, laws.max_id-none docids e n),
  )

  ListsFree-some :
      (docids : Bitmap) (last : ℕ)
      → max_id docids ≡ some last
      → ListsFree docids (from_max r docids (some last))
  unfolding from_max range_after
  ListsFree-some docids last e =
      let (fits, held, over) = laws.max_id-some docids last e in
      let free = difference (from_range last) docids in
      let in_free : (n : ℕ) → elem n (iter free) ≡ ltb n last && not (contains docids n) = λ n.
        ground (
          arith,
          laws.contains-iter free n,
          laws.contains-difference (from_range last) docids n,
          laws.contains-from_range last n fits,
        ) in
      elim (Bool-cases (leb max_u32 last)) [
        | inl full ↦ rw full (
          (laws.iter-IsSorted free, inr (omega arith)),
          λ n l. ground (arith, in_free n, over n, held),
        )
        | inr more ↦ rw more (
          (
            laws.iter-IsSorted free,
            inl (All-elem (λ n. n < suc last) (iter free) (λ n h. ground (arith, in_free n))),
          ),
          λ n l. ground (arith, in_free n, over n, held),
        )
      ]

  -- The iterator made for the documents holds exactly the ids of 32 bits that no document has, in
  -- increasing order.
  pub from_documents_ids-ListsFree :
      (docids : Bitmap) → ListsFree docids (from_documents_ids r docids)
  unfolding from_documents_ids
  from_documents_ids-ListsFree docids = elim (Option-cases (max_id docids)) [
    | inl empty ↦ rw empty (ListsFree-none docids empty)
    | inr (last, e) ↦ rw e (ListsFree-some docids last e)
  ]
