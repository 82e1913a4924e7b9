-- ===== src/FieldsIdsMap/Fresh.antt =====
-- A field id is never handed out twice, also after its name was removed.
use milli.Base.{
  ℕ, ◌^◌, ◌<◌, String, ◌≡◌, ◌≢◌, none, some, List, [], ◌∷◌, arith, Option-cases, inl, inr,
}
use milli.Base.Dict
use milli.FieldsIdsMap.{
  FieldsIdsMap, Operation, add, del, insert, remove, remove_id, id, run, checked_next,
}
use milli.FieldsIdsMap.Invariant.{
  IsValid, Below, NextFits, insert-IsValid, remove-IsValid, run-IsValid,
}
use milli.FieldsIdsMap.Lookup.{
  Outcome, known, fresh, full, outcome, insert_known, insert_new, insert_full,
}

Below-next : (i next : ℕ) → i < next → next < 2 ^ 16 → Below i (checked_next next)
unfolding checked_next
Below-next i next h k = ground arith

module _ (m : FieldsIdsMap) (v : IsValid m) (text : String) (i : ℕ) (b : Below i m.next_id) where
  Below-insert_by : Outcome m text → Below i (insert text m).0.next_id
  Below-insert_by (known k e) = rw (insert_known m text k e) b
  Below-insert_by (fresh k a n) =
      let fits : NextFits m.next_id = v.next_fits in
      rw (insert_new m text k a n) (Below-next i k (rw n at b) (rw n at fits))
  Below-insert_by (full a n) = rw (insert_full m text a n) b

  next_id-remove : (remove text m).0.next_id ≡ m.next_id
  unfolding remove
  next_id-remove = elim (Option-cases (Dict.lookup text m.names_ids)) [
    | inl e ↦ rw (e, remove_id)
    | inr (k, e) ↦ rw (e, remove_id)
  ]

  insert-ne_by : id text m ≡ none → Outcome m text → (insert text m).1 ≢ some i
  insert-ne_by absent (known k e) = cc
  insert-ne_by absent (fresh k a n) =
      let below : i < k = rw n at b in rw (insert_new m text k a n) λ r. ground arith
  insert-ne_by absent (full a n) = rw (insert_full m text a n) λ r. cc

Below-run :
    (m : FieldsIdsMap) (ops : List Operation) (i : ℕ)
    → IsValid m
    → Below i m.next_id
    → Below i (run m ops).next_id
unfolding run
Below-run m [] i v b = b
Below-run m (add text ∷ ops) i v b =
    Below-run (insert text m).0 ops i (insert-IsValid m v text)
      (Below-insert_by m v text i b (outcome m text))
Below-run m (del text ∷ ops) i v b =
    Below-run (remove text m).0 ops i (remove-IsValid m v text) (rw (next_id-remove m v text i b) b)

-- An id that was handed out before stays taken: from a valid map, after any insertions and
-- removals, a name that is not in the map never gets it.
pub insert_never_reuses :
    (m : FieldsIdsMap) (ops : List Operation) (text : String) (i : ℕ)
    → IsValid m
    → Below i m.next_id
    → id text (run m ops) ≡ none
    → (insert text (run m ops)).1 ≢ some i
insert_never_reuses m ops text i v b absent =
    insert-ne_by (run m ops) (run-IsValid m ops v) text i (Below-run m ops i v b) absent
      (outcome (run m ops) text)
