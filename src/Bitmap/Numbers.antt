-- ===== src/Bitmap/Numbers.antt =====
-- Lists of numbers: membership, sorting and removal of neighbours that are equal.
use milli.Base.{
  ℕ, ◌≤◌, ◌<◌, Bool, true, false, ◌||◌, List, [], ◌∷◌, ◌++◌, length, All, ◌==◌, ltb, leb,
  if◌then◌else◌, ◌≡◌, refl, arith, ◌∙◌, ◌⊎◌, inl, inr, Bool-cases, ==_iff, subst, ltb→lt,
}

abbrev pub elem : ℕ → List ℕ → Bool
elem n [] = false
elem n (m ∷ ms) = n == m || elem n ms

-- In increasing order, each number once.
abbrev pub IsSorted : List ℕ → Type 0
IsSorted [] = Unit
IsSorted (n ∷ ns) = All (λ m. n < m) ns × IsSorted ns

-- In increasing order, with repetitions.
abbrev pub IsOrdered : List ℕ → Type 0
IsOrdered [] = Unit
IsOrdered (n ∷ ns) = All (λ m. n ≤ m) ns × IsOrdered ns

place : ℕ → List ℕ → List ℕ
place n [] = n ∷ []
place n (m ∷ ms) = if leb n m then n ∷ m ∷ ms else m ∷ place n ms

-- `sort_unstable` of numbers.
unfoldable pub sort : List ℕ → List ℕ
unfolding place
sort [] = []
sort (n ∷ ns) = place n (sort ns)

-- `Vec::dedup`: of neighbours that are equal the first stays.
unfoldable pub dedup : List ℕ → List ℕ
dedup [] = []
dedup (n ∷ []) = n ∷ []
dedup (n ∷ m ∷ ms) = let rest = dedup (m ∷ ms) in if n == m then rest else n ∷ rest

pub elem-append : (n : ℕ) (xs ys : List ℕ) → elem n (xs ++ ys) ≡ elem n xs || elem n ys
elem-append n [] ys = refl
elem-append n (x ∷ xs) ys = ground (arith, elem-append n xs ys)

elem-place : (k n : ℕ) (ms : List ℕ) → elem k (place n ms) ≡ (k == n) || elem k ms
unfolding place
elem-place k n [] = refl
elem-place k n (m ∷ ms) = ground (arith, elem-place k n ms)

pub elem-sort : (k : ℕ) (ns : List ℕ) → elem k (sort ns) ≡ elem k ns
unfolding sort
elem-sort k [] = refl
elem-sort k (n ∷ ns) = ground (arith, elem-place k n (sort ns), elem-sort k ns)

All-place : (P : ℕ → Type 0) (n : ℕ) (ms : List ℕ) → P n → All P ms → All P (place n ms)
unfolding place
All-place P n [] h a = (h, tt)
All-place P n (m ∷ ms) h a = ground (arith, All-place P n ms)

pub All-sort : (P : ℕ → Type 0) (ns : List ℕ) → All P ns → All P (sort ns)
unfolding sort
All-sort P [] a = tt
All-sort P (n ∷ ns) a = All-place P n (sort ns) a.0 (All-sort P ns a.1)

All-le_trans : (n m : ℕ) (ms : List ℕ) → n ≤ m → All (λ k. m ≤ k) ms → All (λ k. n ≤ k) ms
All-le_trans n m [] h a = tt
All-le_trans n m (k ∷ ks) h a = (omega arith, All-le_trans n m ks h a.1)

place-IsOrdered : (n : ℕ) (ms : List ℕ) → IsOrdered ms → IsOrdered (place n ms)
unfolding place
place-IsOrdered n [] o = (tt, tt)
place-IsOrdered n (m ∷ ms) o =
    ground (arith, place-IsOrdered n ms, All-le_trans n m ms, All-place (λ k. m ≤ k) n ms)

sort-IsOrdered : (ns : List ℕ) → IsOrdered (sort ns)
unfolding sort
sort-IsOrdered [] = tt
sort-IsOrdered (n ∷ ns) = place-IsOrdered n (sort ns) (sort-IsOrdered ns)

pub elem-dedup : (k : ℕ) (ns : List ℕ) → elem k (dedup ns) ≡ elem k ns
unfolding dedup
elem-dedup k [] = refl
elem-dedup k (n ∷ []) = refl
elem-dedup k (n ∷ m ∷ ms) = ground (arith, elem-dedup k (m ∷ ms))

pub All-dedup : (P : ℕ → Type 0) (ns : List ℕ) → All P ns → All P (dedup ns)
unfolding dedup
All-dedup P [] a = tt
All-dedup P (n ∷ []) a = a
All-dedup P (n ∷ m ∷ ms) a = ground (arith, All-dedup P (m ∷ ms))

All-lt_of_le : (n m : ℕ) (ms : List ℕ) → n < m → All (λ k. m ≤ k) ms → All (λ k. n < k) ms
All-lt_of_le n m [] h a = tt
All-lt_of_le n m (k ∷ ks) h a = (omega arith, All-lt_of_le n m ks h a.1)

dedup-IsSorted : (ns : List ℕ) → IsOrdered ns → IsSorted (dedup ns)
unfolding dedup
dedup-IsSorted [] o = tt
dedup-IsSorted (n ∷ []) o = (tt, tt)
dedup-IsSorted (n ∷ m ∷ ms) o =
    ground (arith, dedup-IsSorted (m ∷ ms), All-dedup (λ k. n < k) (m ∷ ms), All-lt_of_le n m ms)

-- Sorted and with its repetitions removed, a list holds the same numbers in increasing order.
pub dedup-sort-IsSorted : (ns : List ℕ) → IsSorted (dedup (sort ns))
dedup-sort-IsSorted ns = dedup-IsSorted (sort ns) (sort-IsOrdered ns)

pub elem-dedup-sort : (k : ℕ) (ns : List ℕ) → elem k (dedup (sort ns)) ≡ elem k ns
elem-dedup-sort k ns = elem-dedup k (sort ns) ∙ elem-sort k ns

-- Two increasing lists of the same numbers are as long as each other.
elem-above : (n : ℕ) (ms : List ℕ) → All (λ m. n < m) ms → elem n ms ≡ false
elem-above n [] a = refl
elem-above n (m ∷ ms) a = ground (arith, elem-above n ms a.1)

All-lt_trans : (n m : ℕ) (ms : List ℕ) → n < m → All (λ k. m < k) ms → All (λ k. n < k) ms
All-lt_trans n m [] h a = tt
All-lt_trans n m (k ∷ ks) h a = (omega arith, All-lt_trans n m ks h a.1)

trichotomy : (x y : ℕ) → ((x < y) ⊎ (x ≡ y)) ⊎ (y < x)
trichotomy x y = elim (Bool-cases (ltb x y)) [
  | inl l ↦ inl (inl (ltb→lt x y l))
  | inr nl ↦ elim (Bool-cases (x == y)) [
    | inl e ↦ inl (inr ((==_iff x y).0 e))
    | inr ne ↦ inr (ground arith)
  ]
]

subset_tail :
    (x y : ℕ) (xs ys : List ℕ)
    → x ≡ y
    → All (λ m. x < m) xs
    → ((n : ℕ) → elem n (x ∷ xs) ≡ true → elem n (y ∷ ys) ≡ true)
    → (n : ℕ) → elem n xs ≡ true
    → elem n ys ≡ true
subset_tail x y xs ys e a sub n h = elim (Bool-cases (n == x)) [
  | inl same ↦
      let above : elem x xs ≡ false = elem-above x xs a in
      let at_x : n ≡ x = (==_iff n x).0 same in
      let h' : elem x xs ≡ true = subst (λ k. elem k xs ≡ true) at_x h in cc
  | inr other ↦ ground (arith, sub n)
]

subset_skip :
    (x y : ℕ) (xs ys : List ℕ)
    → y < x
    → All (λ m. x < m) xs
    → ((n : ℕ) → elem n (x ∷ xs) ≡ true → elem n (y ∷ ys) ≡ true)
    → (n : ℕ) → elem n (x ∷ xs) ≡ true
    → elem n ys ≡ true
subset_skip x y xs ys l a sub n h = elim (Bool-cases (n == y)) [
  | inl same ↦
      let below : elem y (x ∷ xs) ≡ false = elem-above y (x ∷ xs) (l, All-lt_trans y x xs l a) in
      let at_y : n ≡ y = (==_iff n y).0 same in
      let h' : elem y (x ∷ xs) ≡ true = subst (λ k. elem k (x ∷ xs) ≡ true) at_y h in cc
  | inr other ↦ ground (arith, sub n)
]

-- A list in increasing order is no longer than another that holds its numbers.
pub length-le_of_subset :
    (xs ys : List ℕ)
    → IsSorted xs
    → IsSorted ys
    → ((n : ℕ) → elem n xs ≡ true → elem n ys ≡ true)
    → length xs ≤ length ys
length-le_of_subset [] ys sx sy sub = omega arith
length-le_of_subset (x ∷ xs) [] sx sy sub = ground (arith, sub x)
length-le_of_subset (x ∷ xs) (y ∷ ys) sx sy sub = elim (trichotomy x y) [
  | inl (inl less) ↦
      let out : elem x (y ∷ ys) ≡ false =
        elem-above x (y ∷ ys) (less, All-lt_trans x y ys less sy.0) in
      ground (arith, sub x)
  | inl (inr same) ↦
      omega (arith, length-le_of_subset xs ys sx.1 sy.1 (subset_tail x y xs ys same sx.0 sub))
  | inr more ↦
      omega (arith, length-le_of_subset (x ∷ xs) ys sx sy.1 (subset_skip x y xs ys more sx.0 sub))
]
