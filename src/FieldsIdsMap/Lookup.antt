-- ===== src/FieldsIdsMap/Lookup.antt =====
-- What `insert` and `remove` return and what the lookups find afterwards.
use milli.Base.{
  ℕ, String, ◌≡◌, ◌≢◌, ◌↔◌, refl, Option, none, some, arith, eq_iff, Option-cases, ap, sym, ◌∙◌,
  inl, inr,
}
use text.Mathlib.TextPositions.{eq_refl}
use milli.Base.Dict
use milli.Base.BTree
use milli.FieldsIdsMap.{FieldsIdsMap, insert, remove, id, name, checked_next, add_name, remove_id}
use milli.FieldsIdsMap.Invariant.{IsValid}

module _ (m : FieldsIdsMap) (text : String) where
  pub insert_known : (i : ℕ) → id text m ≡ some i → insert text m ≡ (m, some i)
  unfolding insert id
  insert_known i known = rw known

  pub insert_full : id text m ≡ none → m.next_id ≡ none → insert text m ≡ (m, none)
  unfolding insert id
  insert_full absent full = rw (absent, full, add_name)

  pub insert_new :
      (i : ℕ)
      → id text m ≡ none
      → m.next_id ≡ some i
      → insert text m ≡ (
        record {
          names_ids = Dict.insert text i m.names_ids;
          ids_names = BTree.insert i text m.ids_names;
          next_id = checked_next i;
        },
        some i,
      )
  unfolding insert id
  insert_new i absent next = rw (absent, next, add_name)

-- The three ways that an insertion goes.
pub data Outcome (m : FieldsIdsMap) (text : String) : Type 0 where
  known : (i : ℕ) → id text m ≡ some i → Outcome m text
  fresh : (i : ℕ) → id text m ≡ none → m.next_id ≡ some i → Outcome m text
  full : id text m ≡ none → m.next_id ≡ none → Outcome m text

Outcome-absent : (m : FieldsIdsMap) (text : String) → id text m ≡ none → Outcome m text
Outcome-absent m text absent = elim (Option-cases m.next_id) [
  | inl n ↦ full absent n
  | inr (i, n) ↦ fresh i absent n
]

pub outcome : (m : FieldsIdsMap) (text : String) → Outcome m text
outcome m text = elim (Option-cases (id text m)) [
  | inl a ↦ Outcome-absent m text a
  | inr (i, k) ↦ known i k
]

-- The name and the id that were returned are found from each other.
abbrev pub Finds : String → FieldsIdsMap × Option ℕ → Type 0
Finds text (m, r) = (i : ℕ) → r ≡ some i → (id text m ≡ some i) × (name i m ≡ some text)

-- Other names keep their ids.
abbrev pub KeepsOthers : String → FieldsIdsMap → FieldsIdsMap → Type 0
KeepsOthers text m m' = (t : String) → text ≢ t → id t m' ≡ id t m

module _ (m : FieldsIdsMap) (v : IsValid m) (text : String) where
  insert-Finds_by : Outcome m text → Finds text (insert text m)
  unfolding id name
  insert-Finds_by (known k e) = rw (insert_known m text k e) λ i r. (cc, v.name_of_id text i (cc))
  insert-Finds_by (fresh k a n) = rw (insert_new m text k a n) λ i r. (
    ground (arith, Dict.lookup-insert text text k m.names_ids, eq_iff text text),
    ground (arith, BTree.lookup-insert k i text m.ids_names),
  )
  insert-Finds_by (full a n) = rw (insert_full m text a n) λ i r. cc

  insert-KeepsOthers_by : Outcome m text → KeepsOthers text m (insert text m).0
  unfolding id name
  insert-KeepsOthers_by (known k e) = rw (insert_known m text k e) λ t d. refl
  insert-KeepsOthers_by (fresh k a n) =
      rw (insert_new m text k a n)
        λ t d. ground (arith, Dict.lookup-insert text t k m.names_ids, eq_iff text t)
  insert-KeepsOthers_by (full a n) = rw (insert_full m text a n) λ t d. refl

  insert-none_by :
      Outcome m text → ((insert text m).1 ≡ none) ↔ ((id text m ≡ none) × (m.next_id ≡ none))
  insert-none_by (known k e) = rw (insert_known m text k e) (λ r. cc, λ r. cc (r.0))
  insert-none_by (fresh k a n) = rw (insert_new m text k a n) (λ r. cc, λ r. cc (r.1))
  insert-none_by (full a n) = rw (insert_full m text a n) (λ r. (a, n), λ r. refl)

  -- For a valid map: when `insert` returns an id, that id and the name are found from each other;
  -- the other names keep their ids; and it returns no id exactly if the name is new and the ids
  -- are used up.
  pub insert_lem :
      Finds text (insert text m)
      × KeepsOthers text m (insert text m).0
      × (((insert text m).1 ≡ none) ↔ ((id text m ≡ none) × (m.next_id ≡ none)))
  insert_lem =
      let o = outcome m text in (insert-Finds_by o, insert-KeepsOthers_by o, insert-none_by o)

  insert_twice_by : Outcome m text → insert text (insert text m).0 ≡ insert text m
  insert_twice_by (known k e) = rw (insert_known m text k e) (insert_known m text k e)
  insert_twice_by (fresh k a n) =
      let r : (insert text m).1 ≡ some k = ap (λ p. p.1) (insert_new m text k a n) in
      insert_known (insert text m).0 text k (insert-Finds_by (fresh k a n) k r).0
      ∙ ap (λ o. ((insert text m).0, o)) (sym r)
  insert_twice_by (full a n) = rw (insert_full m text a n) (insert_full m text a n)

module _ (m : FieldsIdsMap) (text : String) where
  remove_absent : id text m ≡ none → (remove text m).1 ≡ none
  unfolding remove id
  remove_absent a = rw a

  remove_present : (i : ℕ) → id text m ≡ some i → name i m ≡ some text → (remove text m).1 ≡ some i
  unfolding remove id name
  remove_present i k n = rw (k, n, remove_id)

  names_ids-remove : (remove text m).0.names_ids ≡ Dict.remove text m.names_ids
  unfolding remove
  names_ids-remove = elim (Option-cases (Dict.lookup text m.names_ids)) [
    | inl e ↦ rw (e, remove_id)
    | inr (i, e) ↦ rw (e, remove_id)
  ]

  result-remove : IsValid m → (remove text m).1 ≡ id text m
  result-remove v = elim (Option-cases (id text m)) [
    | inl e ↦ remove_absent e ∙ sym e
    | inr (i, e) ↦ remove_present i e (v.name_of_id text i e) ∙ sym e
  ]

  -- For a valid map: `remove` returns the id that the name had, the name is gone afterwards, and
  -- the other names keep their ids.
  pub remove_lem :
      IsValid m
      → ((remove text m).1 ≡ id text m)
        × (id text (remove text m).0 ≡ none)
        × KeepsOthers text m (remove text m).0
  unfolding id
  remove_lem v = (
    result-remove v,
    rw (names_ids-remove, Dict.lookup-remove, eq_refl),
    λ t d.
        rw names_ids-remove (ground (arith, Dict.lookup-remove text t m.names_ids, eq_iff text t)),
  )

-- Inserting a name a second time changes nothing and returns the same.
pub insert_twice :
    (m : FieldsIdsMap) → IsValid m → (text : String) → insert text (insert text m).0 ≡ insert text m
insert_twice m v text = insert_twice_by m v text (outcome m text)
