-- ===== src/ExternalIds/Updates.antt =====
-- What deletions and insertions make of the id that a document has.
use milli.Base.{
  ℕ, ◌/◌, ◌^◌, ◌<◌, true, List, Option, none, some, leb, ◌≡◌, refl, sym, ap, ◌∙◌, arith, Bool-cases,
  inl, inr, ◌⊎◌, subst,
}
use milli.Base.Results.{Result, ok}
use milli.ExternalIds.Fst.{FstLib, IsFst, IndexedValue, Indexed}
use milli.ExternalIds.{
  deleted_id, Failure, unwrap, indexed_last_value, mark_deleted, or_else, values, live, as_u32,
  live_id, ExternalDocumentsIds, is_empty, get, merge_soft_into_hard, update_soft, delete_ids,
  insert_ids,
}
use milli.ExternalIds.Union.{
  value_of, indexed_last_value_lem, marked, mark_deleted_lem, Total, indexed_last_value-Total,
  mark_deleted-Total, values_lem, unmarked, live-IsIncreasing, lookup-live,
}

-- No value, or one of 32 bits.
abbrev pub Fits : Option ℕ → Type 0
Fits none = Unit
Fits (some id) = id < 2 ^ 32

-- No value, one of 32 bits, or the mark of a deleted id.
abbrev pub Allowed : Option ℕ → Type 0
Allowed none = Unit
Allowed (some id) = (id < 2 ^ 32) ⊎ (id ≡ deleted_id)

module _ (fst : FstLib) (laws : IsFst fst) where
  open fst use {Key, Map, default, len, union, build}

  pub record IsValid (ids : ExternalDocumentsIds fst) : Type 0 where
    pub hard_fits : (k : Key) → Fits (fst.get k ids.hard)
    pub soft_allowed : (k : Key) → Allowed (fst.get k ids.soft)

  -- The id that counts: that of the soft map, else that of the hard one, when it is not deleted.
  abbrev pub current : Key → ExternalDocumentsIds fst → Option ℕ
  current k ids = unmarked fst laws (or_else (fst.get k ids.soft) (fst.get k ids.hard))

  live_id_lem :
      (a b : Option ℕ)
      → Allowed a
      → Fits b
      → live_id (or_else a b) ≡ ok (unmarked fst laws (or_else a b))
  unfolding live_id as_u32
  live_id_lem none none h g = refl
  live_id_lem none (some id) h g = ground arith
  live_id_lem (some id) b h g = ground arith

  get_lem :
      (k : Key) (ids : ExternalDocumentsIds fst) → IsValid ids → get fst k ids ≡ ok (current k ids)
  unfolding get
  get_lem k ids v =
      live_id_lem (fst.get k ids.soft) (fst.get k ids.hard) (v.soft_allowed k) (v.hard_fits k)

  unmarked-or_else-Fits :
      (a b : Option ℕ) → Allowed a → Fits b → Fits (unmarked fst laws (or_else a b))
  unmarked-or_else-Fits none none h g = tt
  unmarked-or_else-Fits none (some id) h g = ground arith
  unmarked-or_else-Fits (some id) b h g = ground arith

  unmarked-unmarked : (a : Option ℕ) → unmarked fst laws (unmarked fst laws a) ≡ unmarked fst laws a
  unmarked-unmarked none = refl
  unmarked-unmarked (some id) = ground arith

  -- The operation succeeds, the ids are valid after it, and each key has the given id.
  abbrev pub Gives : Result Failure (ExternalDocumentsIds fst) → (Key → Option ℕ) → Type 0
  Gives result held =
      (ids' : ExternalDocumentsIds fst) × (result ≡ ok ids')
      × IsValid ids'
      × ((k : Key) → current k ids' ≡ held k)

  hard-IsValid :
      (hard : Map)
      → ((k : Key) → Fits (fst.get k hard))
      → IsValid (record { hard = hard; soft = default })
  hard-IsValid hard fits = record {
    hard_fits = fits;
    soft_allowed = λ k. subst Allowed (sym (laws.get-default k)) tt;
  }

  merged :
      (ids : ExternalDocumentsIds fst) (entries : List (Key × ℕ)) (hard : Map)
      → leb (len ids.hard / 2) (len ids.soft) ≡ true
      → values fst indexed_last_value (union ids.hard ids.soft) ≡ ok entries
      → build (live fst entries) ≡ some hard
      → merge_soft_into_hard fst ids ≡ ok (record { hard = hard; soft = default })
  unfolding merge_soft_into_hard unwrap
  merged ids entries hard many made built =
      rw (many, merge_soft_into_hard) (rw made (rw built refl))

  -- Whether or not the soft map is merged, each key keeps its id.
  merge_soft_into_hard_lem :
      (ids : ExternalDocumentsIds fst)
      → IsValid ids
      → Gives (merge_soft_into_hard fst ids) (λ k. current k ids)
  unfolding merge_soft_into_hard unwrap
  merge_soft_into_hard_lem ids v = elim (Bool-cases (leb (len ids.hard / 2) (len ids.soft))) [
    | inr few ↦ (ids, rw (few, merge_soft_into_hard) refl, v, λ k. refl)
    | inl many ↦
        let found = laws.lookup-union ids.hard ids.soft in
        let (entries, (made, up, keep, same)) =
          values_lem fst laws indexed_last_value (union ids.hard ids.soft)
            (laws.union-IsIncreasing ids.hard ids.soft) (λ k. indexed_last_value-Total (found k)) in
        let (hard, built, held) =
          laws.get-build (live fst entries) (live-IsIncreasing fst laws entries up) in
        let get_hard : (k : Key) → fst.get k hard ≡ current k ids = λ k.
          held k
          ∙ lookup-live fst laws entries k up
          ∙ ap (unmarked fst laws) (same k ∙ indexed_last_value_lem (found k)) in
        (
          record { hard = hard; soft = default },
          merged ids entries hard many made built,
          hard-IsValid hard (λ k. subst Fits (sym (get_hard k)) (
              unmarked-or_else-Fits (fst.get k ids.soft) (fst.get k ids.hard) (v.soft_allowed k)
                (v.hard_fits k))),
          λ k. rw (laws.get-default k) (
              rw (get_hard k)
                (unmarked-unmarked (or_else (fst.get k ids.soft) (fst.get k ids.hard)))),
        )
  ]

  -- A union of the soft map with another that gives each key the value that `pick` makes of the two.
  update_soft_lem :
      (value : List IndexedValue → Option ℕ) (pick : Option ℕ → Option ℕ → Option ℕ) (other : Map)
      (ids : ExternalDocumentsIds fst)
      → ((a b : Option ℕ) (o : Option (List IndexedValue))
          → Indexed a b o
          → value_of value o ≡ pick a b)
      → ((a b : Option ℕ) (o : Option (List IndexedValue)) → Indexed a b o → Total value o)
      → ((k : Key) → Allowed (pick (fst.get k ids.soft) (fst.get k other)))
      → IsValid ids
      → Gives (update_soft fst value other ids) (λ k.
        unmarked fst laws
          (or_else (pick (fst.get k ids.soft) (fst.get k other)) (fst.get k ids.hard)))
  unfolding update_soft unwrap
  update_soft_lem value pick other ids picked total allowed v =
      let found = laws.lookup-union ids.soft other in
      let (entries, (made, up, keep, same)) =
        values_lem fst laws value (union ids.soft other) (laws.union-IsIncreasing ids.soft other)
          (λ k. total _ _ _ (found k)) in
      let (soft, built, held) = laws.get-build entries up in
      let get_soft : (k : Key) → fst.get k soft ≡ pick (fst.get k ids.soft) (fst.get k other) =
        λ k. held k ∙ same k ∙ picked _ _ _ (found k) in
      let after : ExternalDocumentsIds fst = record { hard = ids.hard; soft = soft } in
      let (ids', merged, valid, kept) = merge_soft_into_hard_lem after (record {
        hard_fits = v.hard_fits;
        soft_allowed = λ k. subst Allowed (sym (get_soft k)) (allowed k);
      }) in
      (
        ids',
        rw made (rw built merged),
        valid,
        λ k. kept k ∙ ap (λ s. unmarked fst laws (or_else s (fst.get k ids.hard))) (get_soft k),
      )

  marked-Allowed : (a b : Option ℕ) → Allowed a → Allowed (marked a b)
  marked-Allowed a (some v) h = inr refl
  marked-Allowed a none h = h

  or_else-Allowed : (a b : Option ℕ) → Allowed a → Fits b → Allowed (or_else b a)
  or_else-Allowed a none h g = h
  or_else-Allowed a (some id) h g = inl g

  -- What is left of an id when the keys of a set are deleted.
  abbrev pub without : Option ℕ → Option ℕ → Option ℕ
  without none id = id
  without (some v) id = none

  unmarked-marked :
      (a b hard : Option ℕ)
      → unmarked fst laws (or_else (marked a b) hard)
        ≡ without b (unmarked fst laws (or_else a hard))
  unmarked-marked a none hard = refl
  unmarked-marked a (some v) hard = refl

  unmarked-or_else :
      (a b hard : Option ℕ)
      → Fits b
      → unmarked fst laws (or_else (or_else b a) hard)
        ≡ or_else b (unmarked fst laws (or_else a hard))
  unmarked-or_else a none hard g = refl
  unmarked-or_else a (some id) hard g = ground arith

  Gives-same :
      {result : Result Failure (ExternalDocumentsIds fst)} (held given : Key → Option ℕ)
      → Gives result held
      → ((k : Key) → held k ≡ given k)
      → (ids' : ExternalDocumentsIds fst) × (result ≡ ok ids')
        × IsValid ids'
        × ((k : Key) → get fst k ids' ≡ ok (given k))
  Gives-same held given (ids', e, v, at) same =
      (ids', e, v, λ k. get_lem k ids' v ∙ ap ok (at k ∙ same k))

  -- A deletion of any set of keys from valid ids succeeds and gives valid ids, in which the deleted
  -- keys have no id and the others have the id they had, and no look-up panics.
  pub get-delete_ids :
      (other : Map) (ids : ExternalDocumentsIds fst)
      → IsValid ids
      → (ids' : ExternalDocumentsIds fst) × (delete_ids fst other ids ≡ ok ids')
        × IsValid ids'
        × ((k : Key) → get fst k ids' ≡ ok (without (fst.get k other) (current k ids)))
  unfolding delete_ids
  get-delete_ids other ids v =
      Gives-same _ (λ k. without (fst.get k other) (current k ids))
        (update_soft_lem mark_deleted marked other ids (λ a b o. mark_deleted_lem)
          (λ a b o. mark_deleted-Total)
          (λ k. marked-Allowed (fst.get k ids.soft) (fst.get k other) (v.soft_allowed k)) v)
        (λ k. unmarked-marked (fst.get k ids.soft) (fst.get k other) (fst.get k ids.hard))

  -- An insertion of a map whose values have 32 bits into valid ids succeeds and gives valid ids, in
  -- which the keys of the map have the id of the map and the others the id they had, and no look-up
  -- panics.
  pub get-insert_ids :
      (other : Map) (ids : ExternalDocumentsIds fst)
      → IsValid ids
      → ((k : Key) → Fits (fst.get k other))
      → (ids' : ExternalDocumentsIds fst) × (insert_ids fst other ids ≡ ok ids')
        × IsValid ids'
        × ((k : Key) → get fst k ids' ≡ ok (or_else (fst.get k other) (current k ids)))
  unfolding insert_ids
  get-insert_ids other ids v fits =
      Gives-same _ (λ k. or_else (fst.get k other) (current k ids))
        (update_soft_lem indexed_last_value (λ a b. or_else b a) other ids
          (λ a b o. indexed_last_value_lem) (λ a b o. indexed_last_value-Total)
          (λ k. or_else-Allowed (fst.get k ids.soft) (fst.get k other) (v.soft_allowed k) (fits k))
          v)
        (λ k. unmarked-or_else (fst.get k ids.soft) (fst.get k other) (fst.get k ids.hard) (fits k))

  -- Ids that are empty give no key an id.
  pub get-is_empty :
      (ids : ExternalDocumentsIds fst) (k : Key) → is_empty fst ids ≡ true → get fst k ids ≡ ok none
  unfolding get is_empty live_id
  get-is_empty ids k e =
      let hard : fst.get k ids.hard ≡ none = (laws.is_empty_iff ids.hard).0 (ground arith) k in
      let soft : fst.get k ids.soft ≡ none = (laws.is_empty_iff ids.soft).0 (ground arith) k in
      rw soft (rw hard refl)
