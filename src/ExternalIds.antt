-- ===== src/ExternalIds.antt =====
-- The ids that documents have outside the index (milli/src/external_documents_ids.rs).
pub mod Fst
pub mod Union
pub mod Updates
mod Examples
use milli.Base.{
  ℕ, ◌+◌, ◌-◌, ◌*◌, ◌/◌, ◌^◌, Bool, true, false, not, ◌&&◌, List, [], ◌∷◌, Option, none, some, any,
  leb, ltb, ◌==◌, if◌then◌else◌,
}
use milli.Base.Results.{Result, ok, err, ◌>>=◌}
use Fst.{FstLib, IndexedValue}

abbrev pub deleted_id : ℕ
deleted_id = 2 ^ 64 - 1

-- An error of the map library, or an `unwrap` that fails.
pub data Failure : Type 0 where
  fst_error : Failure
  panic : Failure

unfoldable pub unwrap : {A : Type 0} → Failure → Option A → Result Failure A
unwrap failure (some a) = ok a
unwrap failure none = err failure

abbrev pub or_else : Option ℕ → Option ℕ → Option ℕ
or_else (some a) other = some a
or_else none other = other

-- `max_by_key`, which of equal keys takes the last.
unfoldable pub max_by_index : IndexedValue → List IndexedValue → IndexedValue
max_by_index best [] = best
max_by_index best (iv ∷ more) = max_by_index (if leb best.index iv.index then iv else best) more

unfoldable pub indexed_last_value : List IndexedValue → Option ℕ
unfolding max_by_index
indexed_last_value [] = none
indexed_last_value (iv ∷ more) = some (max_by_index iv more).value

unfoldable pub find_index : ℕ → List IndexedValue → Option ℕ
find_index i [] = none
find_index i (iv ∷ more) = if iv.index == i then some iv.value else find_index i more

-- The entry of the new soft map in the loop of `delete_ids`.
unfoldable pub mark_deleted : List IndexedValue → Option ℕ
unfolding find_index
mark_deleted docids =
    if any (λ v. v.index == 1) docids then some deleted_id else find_index 0 docids

-- `try_into` from u64 to u32, unwrapped.
unfoldable pub as_u32 : ℕ → Result Failure (Option ℕ)
as_u32 id = if ltb id (2 ^ 32) then ok (some id) else err panic

unfoldable pub live_id : Option ℕ → Result Failure (Option ℕ)
unfolding as_u32
live_id none = ok none
live_id (some id) = if id == deleted_id then ok none else as_u32 id

module _ (fst : FstLib) where
  open fst use {Key, Map, default, len, union, build}

  pub record ExternalDocumentsIds : Type 0 where
    pub hard : Map
    pub soft : Map

  unfoldable pub is_empty : ExternalDocumentsIds → Bool
  is_empty ids = fst.is_empty ids.hard && fst.is_empty ids.soft

  unfoldable pub get : Key → ExternalDocumentsIds → Result Failure (Option ℕ)
  unfolding live_id
  get external_id ids =
      live_id (or_else (fst.get external_id ids.soft) (fst.get external_id ids.hard))

  -- A loop over a union that gives each key one value.
  unfoldable pub values :
      (List IndexedValue → Option ℕ)
      → List (Key × List IndexedValue)
      → Result Failure (List (Key × ℕ))
  unfolding unwrap
  values value [] = ok []
  values value ((external_id, docids) ∷ more) = do
    id ← unwrap panic (value docids)
    rest ← values value more
    ok ((external_id, id) ∷ rest)

  -- The entries that are not marked as deleted.
  unfoldable pub live : List (Key × ℕ) → List (Key × ℕ)
  live [] = []
  live ((external_id, id) ∷ more) =
      let rest = live more in if id == deleted_id then rest else (external_id, id) ∷ rest

  unfoldable pub merge_soft_into_hard : ExternalDocumentsIds → Result Failure ExternalDocumentsIds
  unfolding unwrap values indexed_last_value live
  merge_soft_into_hard ids = elim (leb (len ids.hard / 2) (len ids.soft)) [
    | true ↦ do
      entries ← values indexed_last_value (union ids.hard ids.soft)
      hard ← unwrap fst_error (build (live entries))
      ok (record { hard = hard; soft = default })
    | false ↦ ok ids
  ]

  -- What `delete_ids` and `insert_ids` share: the new soft map from its union with another.
  unfoldable pub update_soft :
      (List IndexedValue → Option ℕ)
      → Map
      → ExternalDocumentsIds
      → Result Failure ExternalDocumentsIds
  unfolding unwrap values merge_soft_into_hard
  update_soft value other ids = do
    entries ← values value (union ids.soft other)
    soft ← unwrap fst_error (build entries)
    merge_soft_into_hard (record { hard = ids.hard; soft = soft })

  -- The set that is deleted is the map of its keys.
  unfoldable pub delete_ids : Map → ExternalDocumentsIds → Result Failure ExternalDocumentsIds
  unfolding update_soft mark_deleted
  delete_ids other ids = update_soft mark_deleted other ids

  unfoldable pub insert_ids : Map → ExternalDocumentsIds → Result Failure ExternalDocumentsIds
  unfolding update_soft indexed_last_value
  insert_ids other ids = update_soft indexed_last_value other ids
