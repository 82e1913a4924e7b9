-- ===== src/ExternalIds/Examples.antt =====
-- Runs on maps whose keys are numbers, kept as lists of entries.
use milli.Base.{
  ℕ, ◌^◌, ◌<◌, ◌||◌, sym, subst, Bool, true, false, List, [], ◌∷◌, ◌++◌, Option, none, some, length,
  ltb, ◌==◌, ==_iff, if◌then◌else◌, ◌≡◌, refl, arith, All, Bool-cases, inl, inr, ◌∙◌,
}
use milli.Base.Results.{ok}
use milli.Bitmap.Numbers.{
  sort, dedup, elem, IsSorted, elem-dedup-sort, dedup-sort-IsSorted, elem-append,
}
use milli.ExternalIds.Fst.{FstLib, IsFst, IndexedValue, Indexed, lookup, IsIncreasing}
use milli.ExternalIds.{ExternalDocumentsIds, or_else, get, delete_ids, insert_ids}
use milli.ExternalIds.Updates.{
  IsValid, Fits, Allowed, current, without, get-delete_ids, get-insert_ids,
}

find : ℕ → List (ℕ × ℕ) → Option ℕ
find k [] = none
find k ((j, v) ∷ more) = if k == j then some v else find k more

keys : List (ℕ × ℕ) → List ℕ
keys [] = []
keys ((j, v) ∷ more) = j ∷ keys more

indexed : Option ℕ → Option ℕ → List IndexedValue
indexed none none = []
indexed (some u) none = record { index = 0; value = u } ∷ []
indexed none (some v) = record { index = 1; value = v } ∷ []
indexed (some u) (some v) = record { index = 0; value = u } ∷ record { index = 1; value = v } ∷ []

united : List (ℕ × ℕ) → List (ℕ × ℕ) → List ℕ → List (ℕ × List IndexedValue)
unfolding find indexed
united a b [] = []
united a b (k ∷ ks) = (k, indexed (find k a) (find k b)) ∷ united a b ks

abbrev sample : FstLib
sample = record {
  Key = ℕ;
  key_eq = λ j k. j == k;
  key_lt = ltb;
  Map = List (ℕ × ℕ);
  default = [];
  get = find;
  len = length;
  is_empty = λ m. elim m [ [] ↦ true | e ∷ rest ↦ false ];
  union = λ a b. united a b (dedup (sort (keys a ++ keys b)));
  build = λ entries. some entries;
}

united-IsIncreasing :
    (a b : List (ℕ × ℕ)) (ks : List ℕ) → IsSorted ks → IsIncreasing sample (united a b ks)
unfolding united
united-IsIncreasing a b [] s = tt
united-IsIncreasing a b (k ∷ ks) s = (above ks s.0, united-IsIncreasing a b ks s.1)
  where
    above : (js : List ℕ) → All (λ m. k < m) js → All (λ e. ltb k e.0 ≡ true) (united a b js)
    above [] h = tt
    above (j ∷ js) h = (ground arith, above js h.1)

find-keys : (k : ℕ) (a : List (ℕ × ℕ)) → elem k (keys a) ≡ false → find k a ≡ none
unfolding find keys
find-keys k [] e = refl
find-keys k ((j, v) ∷ more) e = ground (arith, find-keys k more)

keys-empty : (m : List (ℕ × ℕ)) → ((k : ℕ) → find k m ≡ none) → sample.is_empty m ≡ true
unfolding find
keys-empty [] h = refl
keys-empty ((j, v) ∷ more) h = ground (arith, h j)

keys-find : (k : ℕ) (a : List (ℕ × ℕ)) → find k a ≡ none → elem k (keys a) ≡ false
unfolding find keys
keys-find k [] e = refl
keys-find k ((j, v) ∷ more) e = ground (arith, keys-find k more)

lookup-united :
    (a b : List (ℕ × ℕ)) (ks : List ℕ) (k : ℕ)
    → lookup sample k (united a b ks)
      ≡ (if elem k ks then some (indexed (find k a) (find k b)) else none)
unfolding united lookup
lookup-united a b [] k = refl
lookup-united a b (j ∷ js) k = elim (Bool-cases (k == j)) [
  | inl same ↦ let at_j : k ≡ j = (==_iff k j).0 same in rw same (rw at_j refl)
  | inr other ↦ rw other (lookup-united a b js k)
]

-- The values of a key that one of the maps has.
Indexed-indexed :
    (u v : Option ℕ) (held : Bool)
    → ((u ≡ none) → (v ≡ none) → held ≡ false)
    → ((held ≡ false) → (u ≡ none) × (v ≡ none))
    → Indexed u v (if held then some (indexed u v) else none)
unfolding indexed
Indexed-indexed none none held h g = rw (h refl refl) Indexed.neither
Indexed-indexed (some u) none true h g = Indexed.only_first u
Indexed-indexed none (some v) true h g = Indexed.only_second v
Indexed-indexed (some u) (some v) true h g = Indexed.both u v
Indexed-indexed (some u) none false h g = let wrong : some u ≡ none = (g refl).0 in cc
Indexed-indexed none (some v) false h g = let wrong : some v ≡ none = (g refl).1 in cc
Indexed-indexed (some u) (some v) false h g = let wrong : some u ≡ none = (g refl).0 in cc

Indexed-union :
    (a b : List (ℕ × ℕ)) (k : ℕ)
    → Indexed (find k a) (find k b) (lookup sample k (united a b (dedup (sort (keys a ++ keys b)))))
Indexed-union a b k =
    let ks = dedup (sort (keys a ++ keys b)) in
    let held : elem k ks ≡ elem k (keys a) || elem k (keys b) =
      elem-dedup-sort k (keys a ++ keys b) ∙ elem-append k (keys a) (keys b) in
    subst (Indexed (find k a) (find k b)) (sym (lookup-united a b ks k)) (
      Indexed-indexed (find k a) (find k b) (elem k ks)
        (λ e g. ground (arith, keys-find k a e, keys-find k b g))
        (λ e. (find-keys k a (ground arith), find-keys k b (ground arith))))

find-lookup : (entries : List (ℕ × ℕ)) (k : ℕ) → find k entries ≡ lookup sample k entries
unfolding find lookup
find-lookup [] k = refl
find-lookup ((j, v) ∷ more) k = rw (find-lookup more k) refl

sample-IsFst : IsFst sample
unfolding find
sample-IsFst = record {
  key_eq_iff = ==_iff;
  key_lt_irrefl = λ k. ground arith;
  get-default = λ k. refl;
  is_empty_iff = λ m. (empty_find m, keys-empty m);
  union-IsIncreasing = λ a b.
      united-IsIncreasing a b (dedup (sort (keys a ++ keys b)))
        (dedup-sort-IsSorted (keys a ++ keys b));
  lookup-union = Indexed-union;
  get-build = λ entries up. (entries, refl, find-lookup entries);
}
  where
    empty_find : (m : List (ℕ × ℕ)) → sample.is_empty m ≡ true → (k : ℕ) → find k m ≡ none
    empty_find [] e k = refl
    empty_find ((j, v) ∷ more) e k = cc

abbrev ids : ExternalDocumentsIds sample
ids = record { hard = (1, 10) ∷ (2, 20) ∷ (3, 30) ∷ (4, 40) ∷ []; soft = (2, 21) ∷ [] }

abbrev changes : List (ℕ × ℕ)
changes = (2, 5) ∷ (7, 6) ∷ []

ids-IsValid : IsValid sample sample-IsFst ids
unfolding find
ids-IsValid = record {
  hard_fits = λ k. fits k ids.hard (omega arith, (omega arith, (omega arith, (omega arith, tt))));
  soft_allowed = λ k. allowed k ids.soft (omega arith, tt);
}
  where
    fits : (k : ℕ) (m : List (ℕ × ℕ)) → All (λ e. e.1 < 2 ^ 32) m → Fits (find k m)
    fits k [] a = tt
    fits k ((j, v) ∷ more) a = elim (Bool-cases (k == j)) [
      | inl same ↦ rw same a.0
      | inr other ↦ rw other (fits k more a.1)
    ]

    allowed : (k : ℕ) (m : List (ℕ × ℕ)) → All (λ e. e.1 < 2 ^ 32) m → Allowed (find k m)
    allowed k [] a = tt
    allowed k ((j, v) ∷ more) a = elim (Bool-cases (k == j)) [
      | inl same ↦ rw same (inl a.0)
      | inr other ↦ rw other (allowed k more a.1)
    ]

changes_fit : (k : ℕ) → Fits (find k changes)
unfolding find
changes_fit k = elim (Bool-cases (k == 2)) [
  | inl same ↦ rw same (omega arith)
  | inr other ↦ elim (Bool-cases (k == 7)) [
    | inl same ↦ rw (other, same) (omega arith)
    | inr last ↦ rw (other, last) tt
  ]
]

get-delete_ids_example :
    (ids' : ExternalDocumentsIds sample) × (delete_ids sample changes ids ≡ ok ids')
    × IsValid sample sample-IsFst ids'
    × ((k : ℕ)
        → get sample k ids'
          ≡ ok (without sample sample-IsFst (find k changes) (current sample sample-IsFst k ids)))
get-delete_ids_example = get-delete_ids sample sample-IsFst changes ids ids-IsValid

get-insert_ids_example :
    (ids' : ExternalDocumentsIds sample) × (insert_ids sample changes ids ≡ ok ids')
    × IsValid sample sample-IsFst ids'
    × ((k : ℕ)
        → get sample k ids' ≡ ok (or_else (find k changes) (current sample sample-IsFst k ids)))
get-insert_ids_example = get-insert_ids sample sample-IsFst changes ids ids-IsValid changes_fit
