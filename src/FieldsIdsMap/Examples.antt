-- ===== src/FieldsIdsMap/Examples.antt =====
-- The run of the unit test of the source, and the theorems at maps that it passes through.
use milli.Base.{◌≡◌, ◌≢◌, ◌↔◌, refl, none, some, List, [], ◌∷◌, arith}
use milli.Base.Dict
use milli.Base.BTree
use milli.FieldsIdsMap.{
  FieldsIdsMap, Operation, add, del, new, insert, remove, id, run, iter, len, checked_next,
}
use milli.FieldsIdsMap.Invariant.{IsValid, IsValid-new, run-IsValid}
use milli.FieldsIdsMap.Lookup.{Finds, KeepsOthers, insert_lem, remove_lem}
use milli.FieldsIdsMap.Fresh.{insert_never_reuses}

abbrev three : List Operation
three = add "id" ∷ add "title" ∷ add "description" ∷ add "id" ∷ []

abbrev again : List Operation
again = add "id" ∷ add "title" ∷ add "description" ∷ del "title" ∷ add "title" ∷ []

abbrev fields : FieldsIdsMap
fields = run new three

fields-IsValid : IsValid fields
fields-IsValid = run-IsValid new three IsValid-new

unit_test :
    (iter (run new again) ≡ (0, "id") ∷ (2, "description") ∷ (3, "title") ∷ [])
    × (len (run new again) ≡ 3)
    × (id "date" (run new again) ≡ none)
unfolding iter len id run insert remove Dict.lookup Dict.insert Dict.remove BTree.lookup
    BTree.insert BTree.remove checked_next
unit_test = (refl, refl, refl)

run-IsValid_example : IsValid (run new again)
run-IsValid_example = run-IsValid new again IsValid-new

insert_lem_example :
    Finds "date" (insert "date" fields)
    × KeepsOthers "date" fields (insert "date" fields).0
    × (((insert "date" fields).1 ≡ none) ↔ ((id "date" fields ≡ none) × (fields.next_id ≡ none)))
insert_lem_example = insert_lem fields fields-IsValid "date"

remove_lem_example :
    ((remove "title" fields).1 ≡ id "title" fields)
    × (id "title" (remove "title" fields).0 ≡ none)
    × KeepsOthers "title" fields (remove "title" fields).0
remove_lem_example = remove_lem fields "title" fields-IsValid

-- The id 1 was that of `title`, which is removed.
insert_never_reuses_example : (insert "title" (run fields (del "title" ∷ []))).1 ≢ some 1
unfolding id run insert remove Dict.lookup Dict.insert Dict.remove BTree.lookup BTree.insert
    checked_next
insert_never_reuses_example =
    insert_never_reuses fields (del "title" ∷ []) "title" 1 fields-IsValid (omega arith) refl
