-- ===== src/FieldsIdsMap/Invariant.antt =====
-- The two maps are inverse, and no id at or above the next one is in use.
use milli.Base.{
  ℕ, ◌^◌, ◌<◌, String, ◌≡◌, refl, Option, none, some, List, [], ◌∷◌, arith, subst, eq_iff, ◌==◌,
  Bool-cases, ==_iff, inl, inr,
}
use milli.Base.Dict
use milli.Base.BTree
use milli.FieldsIdsMap.{
  FieldsIdsMap, Operation, add, del, new, insert, remove, id, name, run, checked_next, add_name,
  insert_at, remove_id,
}

-- `i` was never handed out if it is at or above the next id; all ids are used up at `none`.
abbrev pub Below : ℕ → Option ℕ → Type 0
Below i none = i < 2 ^ 16
Below i (some next) = i < next

abbrev pub NextFits : Option ℕ → Type 0
NextFits none = Unit
NextFits (some next) = next < 2 ^ 16

pub record IsValid (m : FieldsIdsMap) : Type 0 where
  pub name_of_id : (text : String) (i : ℕ) → id text m ≡ some i → name i m ≡ some text
  pub id_of_name : (text : String) (i : ℕ) → name i m ≡ some text → id text m ≡ some i
  pub below : (text : String) (i : ℕ) → name i m ≡ some text → Below i m.next_id
  pub next_fits : NextFits m.next_id
  pub sorted : BTree.IsSorted m.ids_names

pub IsValid-new : IsValid new
unfolding id name Dict.lookup BTree.lookup
IsValid-new = record {
  name_of_id = λ text i h. cc;
  id_of_name = λ text i h. cc;
  below = λ text i h. cc;
  next_fits = omega arith;
  sorted = tt;
}

-- The map after a new name got the id `i`.
abbrev added : String → ℕ → FieldsIdsMap → FieldsIdsMap
added text i m = record {
  names_ids = Dict.insert text i m.names_ids;
  ids_names = BTree.insert i text m.ids_names;
  next_id = checked_next i;
}

Below-checked_next : (i : ℕ) → i < 2 ^ 16 → Below i (checked_next i)
unfolding checked_next
Below-checked_next i h = ground arith

NextFits-checked_next : (i : ℕ) → NextFits (checked_next i)
unfolding checked_next
NextFits-checked_next i = ground arith

Below-checked_next_mono : (i j : ℕ) → j < i → i < 2 ^ 16 → Below j (checked_next i)
unfolding checked_next
Below-checked_next_mono i j h k = ground arith

module _ (m : FieldsIdsMap) (v : IsValid m) (text : String) where
  below_next : (i : ℕ) → m.next_id ≡ some i → (t : String) (j : ℕ) → name j m ≡ some t → j < i
  below_next i next t j h = let b : Below j m.next_id = v.below t j h in rw next at b

  added-IsValid :
      (i : ℕ) → id text m ≡ none → m.next_id ≡ some i → i < 2 ^ 16 → IsValid (added text i m)
  unfolding id name
  added-IsValid i absent next fits = record {
    name_of_id = λ t j h. ground (
      arith,
      Dict.lookup-insert text t i m.names_ids,
      BTree.lookup-insert i j text m.ids_names,
      eq_iff text t,
      v.name_of_id t j,
      below_next i next t j,
    );
    id_of_name = λ t j h. ground (
      arith,
      Dict.lookup-insert text t i m.names_ids,
      BTree.lookup-insert i j text m.ids_names,
      eq_iff text t,
      v.id_of_name t j,
    );
    below = λ t j h. elim (Bool-cases (i == j)) [
      | inl same ↦
          subst (λ k. Below k (checked_next i)) ((==_iff i j).0 same) (Below-checked_next i fits)
      | inr other ↦
          Below-checked_next_mono i j
            (below_next i next t j (ground (arith, BTree.lookup-insert i j text m.ids_names))) fits
    ];
    next_fits = NextFits-checked_next i;
    sorted = BTree.insert-IsSorted i text m.ids_names v.sorted;
  }

  insert-IsValid_next :
      (o : Option ℕ) → m.next_id ≡ o → id text m ≡ none → IsValid (add_name text o m).0
  unfolding add_name
  insert-IsValid_next none next absent = v
  insert-IsValid_next (some i) next absent =
      added-IsValid i absent next (let f : NextFits m.next_id = v.next_fits in rw next at f)

  insert-IsValid_at : (o : Option ℕ) → id text m ≡ o → IsValid (insert_at text o m).0
  unfolding insert_at
  insert-IsValid_at (some i) known = v
  insert-IsValid_at none absent = insert-IsValid_next m.next_id refl absent

  pub insert-IsValid : IsValid (insert text m).0
  unfolding insert id
  insert-IsValid = insert-IsValid_at (Dict.lookup text m.names_ids) refl

  remove-IsValid_at :
      (o : Option ℕ)
      → id text m ≡ o
      → IsValid (remove_id o (record m { names_ids = Dict.remove text m.names_ids })).0
  unfolding remove_id id name
  remove-IsValid_at none absent = record {
    name_of_id = λ t j h. ground (arith, Dict.lookup-remove text t m.names_ids, v.name_of_id t j);
    id_of_name = λ t j h.
        ground (arith, Dict.lookup-remove text t m.names_ids, v.id_of_name t j, eq_iff text t);
    below = v.below;
    next_fits = v.next_fits;
    sorted = v.sorted;
  }
  remove-IsValid_at (some i) known = record {
    name_of_id = λ t j h. ground (
      arith,
      Dict.lookup-remove text t m.names_ids,
      BTree.lookup-remove i j m.ids_names,
      v.name_of_id t j,
      v.name_of_id text i,
      eq_iff text t,
    );
    id_of_name = λ t j h. ground (
      arith,
      Dict.lookup-remove text t m.names_ids,
      BTree.lookup-remove i j m.ids_names,
      v.id_of_name t j,
      eq_iff text t,
    );
    below = λ t j h. v.below t j (ground (arith, BTree.lookup-remove i j m.ids_names));
    next_fits = v.next_fits;
    sorted = BTree.remove-IsSorted i m.ids_names v.sorted;
  }

  pub remove-IsValid : IsValid (remove text m).0
  unfolding remove id
  remove-IsValid = remove-IsValid_at (Dict.lookup text m.names_ids) refl

-- Whatever names are inserted and removed, the two maps stay inverse to each other, every id in use
-- was handed out before, and the ids stand in increasing order.
pub run-IsValid : (m : FieldsIdsMap) (ops : List Operation) → IsValid m → IsValid (run m ops)
unfolding run
run-IsValid m [] v = v
run-IsValid m (add text ∷ ops) v = run-IsValid (insert text m).0 ops (insert-IsValid m v text)
run-IsValid m (del text ∷ ops) v = run-IsValid (remove text m).0 ops (remove-IsValid m v text)
