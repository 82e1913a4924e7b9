-- ===== src/Bitmap/Sample.antt =====
-- A concrete bitmap, a list of numbers, that satisfies the laws of the interface. The library's own
-- bitmaps are not modelled.
use milli.Base.{
  ℕ, zero, suc, ◌+◌, ◌^◌, ◌<◌, true, false, not, ◌&&◌, List, [], ◌∷◌, ◌++◌, Option, none, some,
  length, length-append, drop, All, ◌==◌, ltb, if◌then◌else◌, ◌≡◌, refl, arith, ◌∙◌, subst, sym,
  Bool-cases, inl, inr,
}
use milli.Bitmap.{Roaring, IsRoaring}
use milli.Bitmap.Numbers.{
  elem, elem-append, sort, dedup, elem-dedup-sort, dedup-sort-IsSorted, All-sort, All-dedup,
  IsSorted,
}

-- The numbers of 32 bits of a list.
unfoldable pub fitting : List ℕ → List ℕ
fitting [] = []
fitting (n ∷ ns) = let rest = fitting ns in if ltb n (2 ^ 32) then n ∷ rest else rest

unfoldable pub without : List ℕ → List ℕ → List ℕ
without [] out = []
without (n ∷ ns) out = let rest = without ns out in if elem n out then rest else n ∷ rest

unfoldable pub common : List ℕ → List ℕ → List ℕ
common [] other = []
common (n ∷ ns) other = let rest = common ns other in if elem n other then n ∷ rest else rest

unfoldable pub below : ℕ → List ℕ
below zero = []
below (suc n) = n ∷ below n

unfoldable pub join_max : ℕ → Option ℕ → ℕ
join_max n none = n
join_max n (some m) = if ltb n m then m else n

unfoldable pub largest : List ℕ → Option ℕ
unfolding join_max
largest [] = none
largest (n ∷ ns) = some (join_max n (largest ns))

unfoldable pub listed : List ℕ → List ℕ
unfolding fitting
listed b = dedup (sort (fitting b))

abbrev padding : List ℕ
padding =
    0 ∷ 0 ∷ 0 ∷ 0 ∷ 0 ∷ 0 ∷ 0 ∷ 0 ∷ 0 ∷ 0 ∷ 0 ∷ 0 ∷ 0 ∷ 0 ∷ 0 ∷ 0 ∷ 0 ∷ 0 ∷ 0 ∷ 0 ∷ 0 ∷ 0 ∷ 0 ∷ 0
    ∷ 0 ∷ 0 ∷ 0 ∷ 0 ∷ 0 ∷ []

abbrev pub sample : Roaring
sample = record {
  Bitmap = List ℕ;
  contains = λ b n. elem n (listed b);
  new = [];
  insert = λ n b. n ∷ b;
  len = λ b. length (listed b);
  max_id = λ b. largest (listed b);
  iter = listed;
  union = λ a b. a ++ b;
  intersection = λ a b. common a b;
  difference = λ a b. without a b;
  from_range = below;
  from_sorted_iter = λ ns. some ns;
  extend = λ b ns. b ++ ns;
  serialized_size = λ b. 29 + length b;
  serialize = λ b. padding ++ b;
  deserialize = λ bytes. some (drop 29 bytes);
}

elem-fitting : (n : ℕ) (b : List ℕ) → elem n (fitting b) ≡ (ltb n (2 ^ 32) && elem n b)
unfolding fitting
elem-fitting n [] = ground arith
elem-fitting n (m ∷ ms) = ground (arith, elem-fitting n ms)

elem-listed : (n : ℕ) (b : List ℕ) → elem n (listed b) ≡ (ltb n (2 ^ 32) && elem n b)
unfolding listed
elem-listed n b = elem-dedup-sort n (fitting b) ∙ elem-fitting n b

All-fitting : (b : List ℕ) → All (λ n. n < 2 ^ 32) (fitting b)
unfolding fitting
All-fitting [] = tt
All-fitting (n ∷ ns) = ground (arith, All-fitting ns)

All-listed : (b : List ℕ) → All (λ n. n < 2 ^ 32) (listed b)
unfolding listed
All-listed b =
    All-dedup (λ n. n < 2 ^ 32) (sort (fitting b))
      (All-sort (λ n. n < 2 ^ 32) (fitting b) (All-fitting b))

listed-IsSorted : (b : List ℕ) → IsSorted (listed b)
unfolding listed
listed-IsSorted b = dedup-sort-IsSorted (fitting b)

elem-without : (n : ℕ) (a b : List ℕ) → elem n (without a b) ≡ elem n a && not (elem n b)
unfolding without
elem-without n [] b = refl
elem-without n (m ∷ ms) b = elim (Bool-cases (n == m)) [
  | inl same ↦ let at_m : n ≡ m = ground arith in rw at_m (ground (arith, elem-without m ms b))
  | inr other ↦ ground (arith, elem-without n ms b)
]

elem-common : (n : ℕ) (a b : List ℕ) → elem n (common a b) ≡ elem n a && elem n b
unfolding common
elem-common n [] b = refl
elem-common n (m ∷ ms) b = elim (Bool-cases (n == m)) [
  | inl same ↦ let at_m : n ≡ m = ground arith in rw at_m (ground (arith, elem-common m ms b))
  | inr other ↦ ground (arith, elem-common n ms b)
]

elem-below : (n m : ℕ) → elem n (below m) ≡ ltb n m
unfolding below
elem-below n zero = ground arith
elem-below n (suc m) = ground (arith, elem-below n m)

largest-none : (ns : List ℕ) → largest ns ≡ none → (n : ℕ) → elem n ns ≡ false
unfolding largest
largest-none [] e n = refl
largest-none (m ∷ ms) e n = cc

-- The largest number is one of the list, and the others are no larger.
abbrev Tops : List ℕ → Option ℕ → Type 0
Tops ns none = (n : ℕ) → elem n ns ≡ false
Tops ns (some m) = (elem m ns ≡ true) × ((n : ℕ) → m < n → elem n ns ≡ false)

join_max-Tops :
    (n : ℕ) (ns : List ℕ) (o : Option ℕ) → Tops ns o → Tops (n ∷ ns) (some (join_max n o))
unfolding join_max
join_max-Tops n ns none t = (ground arith, λ k l. ground (arith, t k))
join_max-Tops n ns (some m) t = elim (Bool-cases (ltb n m)) [
  | inl less ↦
      let most : join_max n (some m) ≡ m = rw less refl in
      subst (λ k. Tops (n ∷ ns) (some k)) (sym most)
        (ground (arith, t.0), λ k l. ground (arith, t.1 k))
  | inr more ↦
      let most : join_max n (some m) ≡ n = rw more refl in
      subst (λ k. Tops (n ∷ ns) (some k)) (sym most) (ground arith, λ k l. ground (arith, t.1 k))
]

largest-Tops : (ns : List ℕ) → Tops ns (largest ns)
unfolding largest
largest-Tops [] = λ n. refl
largest-Tops (n ∷ ns) = join_max-Tops n ns (largest ns) (largest-Tops ns)

All-at : (ns : List ℕ) (n : ℕ) → All (λ k. k < 2 ^ 32) ns → elem n ns ≡ true → n < 2 ^ 32
All-at [] n a h = cc
All-at (m ∷ ms) n a h = ground (arith, All-at ms n a.1)

pub sample-IsRoaring : IsRoaring sample
sample-IsRoaring = record {
  contains-new = λ n. elem-listed n [] ∙ ground arith;
  contains-insert = λ b m n l. ground (arith, elem-listed n (m ∷ b), elem-listed n b);
  contains-iter = λ b n. refl;
  iter-IsSorted = listed-IsSorted;
  iter-fits = All-listed;
  len-iter = λ b. refl;
  max_id-none = λ b e n. largest-none (listed b) e n;
  max_id-some = λ b m e.
      let (held, over) = subst (Tops (listed b)) e (largest-Tops (listed b)) in
      (All-at (listed b) m (All-listed b) held, held, over);
  contains-union = λ a b n.
      ground (arith, elem-listed n (a ++ b), elem-listed n a, elem-listed n b, elem-append n a b);
  contains-intersection = λ a b n.
      ground
        (arith, elem-listed n (common a b), elem-listed n a, elem-listed n b, elem-common n a b);
  contains-difference = λ a b n.
      ground
        (arith, elem-listed n (without a b), elem-listed n a, elem-listed n b, elem-without n a b);
  contains-from_range = λ m n l. ground (arith, elem-listed n (below m), elem-below n m);
  contains-from_sorted_iter = λ ns sorted fits. (ns, refl, λ n. fitting_only ns n fits);
  contains-extend = λ b ns fits n. ground (
    arith,
    elem-listed n (b ++ ns),
    elem-listed n b,
    elem-append n b ns,
    elem-listed n ns,
    fitting_only ns n fits,
  );
  deserialize-serialize = λ b. refl;
  length-serialize = λ b. length-append padding b;
  serialize_long = λ b l. omega (arith, length-append padding b);
}
  where
    fitting_only : (ns : List ℕ) (n : ℕ) → All (λ k. k < 2 ^ 32) ns → elem n (listed ns) ≡ elem n ns
    fitting_only ns n fits = elim (Bool-cases (elem n ns)) [
      | inl held ↦
          let small : n < 2 ^ 32 = All-at ns n fits held in ground (arith, elem-listed n ns)
      | inr out ↦ ground (arith, elem-listed n ns)
    ]
