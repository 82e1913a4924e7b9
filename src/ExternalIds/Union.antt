-- ===== src/ExternalIds/Union.antt =====
-- What the loops over a union of two maps give for each key.
use milli.Base.{
  ℕ, true, false, List, [], ◌∷◌, Option, none, some, All, ◌==◌, if◌then◌else◌, ◌≡◌, refl, sym, ap,
  ◌∙◌, arith, Bool-cases, inl, inr, ◌⊎◌, subst,
}
use milli.Base.Results.{ok}
use milli.ExternalIds.Fst.{FstLib, IsFst, IndexedValue, Indexed, lookup, IsIncreasing}
use milli.ExternalIds.{
  deleted_id, unwrap, max_by_index, indexed_last_value, find_index, mark_deleted, or_else, values,
  live,
}

-- The value for a key of the union, when it has one.
abbrev pub value_of : (List IndexedValue → Option ℕ) → Option (List IndexedValue) → Option ℕ
value_of value none = none
value_of value (some docids) = value docids

-- The second map's value, else the first's.
pub indexed_last_value_lem :
    {a b : Option ℕ} {o : Option (List IndexedValue)}
    → Indexed a b o
    → value_of indexed_last_value o ≡ or_else b a
unfolding indexed_last_value max_by_index
indexed_last_value_lem Indexed.neither = refl
indexed_last_value_lem (Indexed.only_first u) = refl
indexed_last_value_lem (Indexed.only_second v) = refl
indexed_last_value_lem (Indexed.both u v) = refl
indexed_last_value_lem (Indexed.both_swapped u v) = refl

-- The mark where the second map has the key, else the first map's value.
abbrev pub marked : Option ℕ → Option ℕ → Option ℕ
marked a (some v) = some deleted_id
marked a none = a

pub mark_deleted_lem :
    {a b : Option ℕ} {o : Option (List IndexedValue)}
    → Indexed a b o
    → value_of mark_deleted o ≡ marked a b
unfolding mark_deleted find_index
mark_deleted_lem Indexed.neither = refl
mark_deleted_lem (Indexed.only_first u) = refl
mark_deleted_lem (Indexed.only_second v) = refl
mark_deleted_lem (Indexed.both u v) = refl
mark_deleted_lem (Indexed.both_swapped u v) = refl

-- A value that every key of a union has.
abbrev pub Total : (List IndexedValue → Option ℕ) → Option (List IndexedValue) → Type 0
Total value none = Unit
Total value (some docids) = (id : ℕ) × (value docids ≡ some id)

pub indexed_last_value-Total :
    {a b : Option ℕ} {o : Option (List IndexedValue)} → Indexed a b o → Total indexed_last_value o
unfolding indexed_last_value max_by_index
indexed_last_value-Total Indexed.neither = tt
indexed_last_value-Total (Indexed.only_first u) = (u, refl)
indexed_last_value-Total (Indexed.only_second v) = (v, refl)
indexed_last_value-Total (Indexed.both u v) = (v, refl)
indexed_last_value-Total (Indexed.both_swapped u v) = (v, refl)

pub mark_deleted-Total :
    {a b : Option ℕ} {o : Option (List IndexedValue)} → Indexed a b o → Total mark_deleted o
unfolding mark_deleted find_index
mark_deleted-Total Indexed.neither = tt
mark_deleted-Total (Indexed.only_first u) = (u, refl)
mark_deleted-Total (Indexed.only_second v) = (deleted_id, refl)
mark_deleted-Total (Indexed.both u v) = (deleted_id, refl)
mark_deleted-Total (Indexed.both_swapped u v) = (deleted_id, refl)

module _ (fst : FstLib) (laws : IsFst fst) where
  open fst use {Key, key_eq, key_lt}

  abbrev Above {ℓ} : {V : Type ℓ} → Key → List (Key × V) → Type 0
  Above k entries = All (λ e. key_lt k e.0 ≡ true) entries

  lookup-Above {ℓ} :
      {V : Type ℓ} (k : Key) (entries : List (Key × V))
      → Above k entries
      → lookup fst k entries ≡ none
  unfolding lookup
  lookup-Above k [] a = refl
  lookup-Above k ((j, v) ∷ more) a = elim (Bool-cases (key_eq k j)) [
    | inl same ↦
        let at_j : k ≡ j = (laws.key_eq_iff k j).0 same in
        let self : key_lt k k ≡ true = subst (λ i. key_lt k i ≡ true) (sym at_j) a.0 in
        let never : key_lt k k ≡ false = laws.key_lt_irrefl k in cc
    | inr other ↦ rw other (lookup-Above k more a.1)
  ]

  -- A key that is found behind the first entry is found in the whole.
  lookup-behind {ℓ} :
      {V : Type ℓ} (j k : Key) (v : V) (entries : List (Key × V))
      → Above j entries
      → (lookup fst k ((j, v) ∷ entries) ≡ lookup fst k entries) ⊎ (lookup fst k entries ≡ none)
  unfolding lookup
  lookup-behind j k v entries a = elim (Bool-cases (key_eq k j)) [
    | inl same ↦
        let at_j : k ≡ j = (laws.key_eq_iff k j).0 same in
        inr (subst (λ i. lookup fst i entries ≡ none) (sym at_j) (lookup-Above j entries a))
    | inr other ↦ inl (rw other refl)
  ]

  lookup-here {ℓ} :
      {V : Type ℓ} (k : Key) (v : V) (entries : List (Key × V))
      → lookup fst k ((k, v) ∷ entries) ≡ some v
  unfolding lookup
  lookup-here k v entries =
      let same : key_eq k k ≡ true = (laws.key_eq_iff k k).1 refl in rw same refl

  Total-behind :
      (value : List IndexedValue → Option ℕ) (j k : Key) (docids : List IndexedValue)
      (entries : List (Key × List IndexedValue))
      → Above j entries
      → Total value (lookup fst k ((j, docids) ∷ entries))
      → Total value (lookup fst k entries)
  Total-behind value j k docids entries a t = elim (lookup-behind j k docids entries a) [
    | inl same ↦ subst (Total value) same t
    | inr gone ↦ subst (Total value) (sym gone) tt
  ]

  -- The entries that a loop over the union makes.
  abbrev pub Valued :
      (List IndexedValue → Option ℕ) → List (Key × List IndexedValue) → List (Key × ℕ) → Type 0
  Valued value stream entries =
      (values fst value stream ≡ ok entries)
      × IsIncreasing fst entries
      × ((j : Key) → Above j stream → Above j entries)
      × ((k : Key) → lookup fst k entries ≡ value_of value (lookup fst k stream))

  pub values_lem :
      (value : List IndexedValue → Option ℕ) (stream : List (Key × List IndexedValue))
      → IsIncreasing fst stream
      → ((k : Key) → Total value (lookup fst k stream))
      → (entries : List (Key × ℕ)) × Valued value stream entries
  unfolding values lookup unwrap
  values_lem value [] up total = ([], (refl, tt, (λ j a. tt), λ k. refl))
  values_lem value ((key, docids) ∷ more) up total =
      let (id, e) = subst (Total value) (lookup-here key docids more) (total key) in
      let (entries, (made, up', keep, same)) =
        values_lem value more up.1 (λ k. Total-behind value key k docids more up.0 (total k)) in
      (
        (key, id) ∷ entries,
        (
          values_step key docids more id entries e made,
          (keep key up.0, up'),
          (λ j a. (a.0, keep j a.1)),
          λ k. elim (Bool-cases (key_eq k key)) [
            | inl here ↦ rw here (sym e)
            | inr other ↦ rw other (same k)
          ],
        ),
      )
    where
      values_step :
          (key : Key) (docids : List IndexedValue) (more : List (Key × List IndexedValue)) (id : ℕ)
          (entries : List (Key × ℕ))
          → value docids ≡ some id
          → values fst value more ≡ ok entries
          → values fst value ((key, docids) ∷ more) ≡ ok ((key, id) ∷ entries)
      values_step key docids more id entries e made = rw e (rw made refl)

  -- A value that is not the mark.
  abbrev pub unmarked : Option ℕ → Option ℕ
  unmarked none = none
  unmarked (some id) = if id == deleted_id then none else some id

  Above-live : (j : Key) (entries : List (Key × ℕ)) → Above j entries → Above j (live fst entries)
  unfolding live
  Above-live j [] a = tt
  Above-live j ((k, id) ∷ more) a = ground (arith, Above-live j more a.1)

  pub live-IsIncreasing :
      (entries : List (Key × ℕ)) → IsIncreasing fst entries → IsIncreasing fst (live fst entries)
  unfolding live
  live-IsIncreasing [] up = tt
  live-IsIncreasing ((k, id) ∷ more) up =
      ground (arith, live-IsIncreasing more up.1, Above-live k more up.0)

  pub lookup-live :
      (entries : List (Key × ℕ)) (k : Key)
      → IsIncreasing fst entries
      → lookup fst k (live fst entries) ≡ unmarked (lookup fst k entries)
  unfolding live lookup
  lookup-live [] k up = refl
  lookup-live ((j, id) ∷ more) k up = elim (Bool-cases (key_eq k j)) [
    | inl same ↦
        let at_j : k ≡ j = (laws.key_eq_iff k j).0 same in
        let gone : lookup fst k more ≡ none =
          subst (λ i. lookup fst i more ≡ none) (sym at_j) (lookup-Above j more up.0) in
        elim (Bool-cases (id == deleted_id)) [
          | inl mark ↦ rw (mark, same) (rw mark (lookup-live more k up.1 ∙ ap unmarked gone))
          | inr kept ↦ rw (kept, same) (rw kept refl)
        ]
    | inr other ↦ elim (Bool-cases (id == deleted_id)) [
      | inl mark ↦ rw (mark, other) (lookup-live more k up.1)
      | inr kept ↦ rw (kept, other) (lookup-live more k up.1)
    ]
  ]
