-- ===== src/FieldsIdsMap.antt =====
-- The two-way map between field names and field ids (milli/src/fields_ids_map.rs). A `FieldId` is a
-- u16; `names_ids` and `ids_names` are the fields of the same names.
pub mod Invariant
pub mod Lookup
pub mod Fresh
mod Examples
use milli.Base.{
  ℕ, ◌+◌, ◌^◌, String, Bool, true, false, List, [], ◌∷◌, Option, none, some, map, length, ltb,
  if◌then◌else◌,
}
use milli.Base.Dict
use milli.Base.BTree

pub record FieldsIdsMap : Type 0 where
  pub names_ids : List (String × ℕ)
  pub ids_names : List (ℕ × String)
  pub next_id : Option ℕ

abbrev pub new : FieldsIdsMap
new = record { names_ids = []; ids_names = []; next_id = some 0 }

-- `u16::checked_add(1)`.
unfoldable pub checked_next : ℕ → Option ℕ
checked_next id = if ltb (id + 1) (2 ^ 16) then some (id + 1) else none

-- Number of names, and whether there is none.
unfoldable pub len : FieldsIdsMap → ℕ
len m = length m.names_ids

unfoldable pub is_empty : FieldsIdsMap → Bool
is_empty m = elim m.names_ids [ [] ↦ true | e ∷ rest ↦ false ]

-- The `None` branch of `insert`, after the `?` on `next_id`.
add_name : String → Option ℕ → FieldsIdsMap → FieldsIdsMap × Option ℕ
add_name name none m = (m, none)
add_name name (some id) m = (
  record {
    names_ids = Dict.insert name id m.names_ids;
    ids_names = BTree.insert id name m.ids_names;
    next_id = checked_next id;
  },
  some id,
)

insert_at : String → Option ℕ → FieldsIdsMap → FieldsIdsMap × Option ℕ
insert_at name (some id) m = (m, some id)
insert_at name none m = add_name name m.next_id m

unfoldable pub insert : String → FieldsIdsMap → FieldsIdsMap × Option ℕ
unfolding insert_at add_name
insert name m = insert_at name (Dict.lookup name m.names_ids) m

unfoldable pub id : String → FieldsIdsMap → Option ℕ
id name m = Dict.lookup name m.names_ids

unfoldable pub name : ℕ → FieldsIdsMap → Option String
name i m = BTree.lookup i m.ids_names

-- `remove_entry` gives the key back if it is there.
remove_id : Option ℕ → FieldsIdsMap → FieldsIdsMap × Option ℕ
remove_id none m = (m, none)
remove_id (some i) m = (
  record m { ids_names = BTree.remove i m.ids_names },
  elim (BTree.lookup i m.ids_names) [ none ↦ none | some text ↦ some i ],
)

unfoldable pub remove : String → FieldsIdsMap → FieldsIdsMap × Option ℕ
unfolding remove_id
remove text m =
    remove_id (Dict.lookup text m.names_ids) (record m { names_ids = Dict.remove text m.names_ids })

-- The entries, ids and names in the order of the ids.
unfoldable pub iter : FieldsIdsMap → List (ℕ × String)
iter m = m.ids_names

unfoldable pub ids : FieldsIdsMap → List ℕ
ids m = map (λ e. e.0) m.ids_names

unfoldable pub names : FieldsIdsMap → List String
names m = map (λ e. e.1) m.ids_names

-- What a caller may do to the map.
pub data Operation : Type 0 where
  add : String → Operation
  del : String → Operation

unfoldable pub run : FieldsIdsMap → List Operation → FieldsIdsMap
run m [] = m
run m (add text ∷ ops) = run (insert text m).0 ops
run m (del text ∷ ops) = run (remove text m).0 ops
