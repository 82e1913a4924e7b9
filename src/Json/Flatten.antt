-- ===== src/Json/Flatten.antt =====
-- `flatten` (flatten-serde-json/src/lib.rs). A key is the list of its bytes, and a map the list of
-- its entries.
use milli.Base.{
  ℕ, ◌+◌, Bool, true, false, ◌&&◌, List, [], ◌∷◌, ◌++◌, Option, none, some, All, ◌==◌,
  if◌then◌else◌, ◌≡◌, refl, arith, Bool-cases, inl, inr,
}
use milli.Json.{Value, Values, Entries, leaf, array, object, nil, cons, empty, entry}
use milli.Json.Depth.{any_nested, should_flatten_from_value}

abbrev pub Key : Type 0
Key = List ℕ

unfoldable pub key_eq : Key → Key → Bool
key_eq [] [] = true
key_eq (a ∷ more) (b ∷ bs) = let rest = key_eq more bs in (a == b) && rest
key_eq _ _ = false

abbrev pub Map : Type 0 → Type 0
Map A = List (Key × Value A)

-- `base_key.map_or_else(|| key.clone(), |base_key| format!("{base_key}.{key}"))`.
unfoldable pub new_key : Option Key → Key → Key
new_key none key = key
new_key (some base_key) key = base_key ++ b'.' ∷ key

module _ {A : Type 0} where
  -- `Vec::push`.
  unfoldable pub push : Values A → Value A → Values A
  push nil v = cons v nil
  push (cons w ws) v = cons w (push ws v)

  -- The value of a key that is already there, with the new one.
  unfoldable pub join_value : Value A → Value A → Value A
  unfolding push
  join_value (array vs) to_insert = array (push vs to_insert)
  join_value (leaf a) to_insert = array (cons (leaf a) (cons to_insert nil))
  join_value (object es) to_insert = array (cons (object es) (cons to_insert nil))

  unfoldable pub insert_value : Map A → Key → Value A → Map A
  unfolding join_value
  insert_value [] key to_insert = (key, to_insert) ∷ []
  insert_value ((k, v) ∷ base_json) key to_insert =
      let rest = insert_value base_json key to_insert in
      if key_eq k key then (k, join_value v to_insert) ∷ base_json else (k, v) ∷ rest

  -- `insert_any` is the choice of the three cases, in the bodies of both loops.
  unfoldable mutual
    unfolding insert_value new_key

    pub insert_any : Map A → Key → Value A → Map A
    insert_any base_json key (leaf a) = insert_value base_json key (leaf a)
    insert_any base_json key (array vs) = insert_array base_json key vs
    insert_any base_json key (object es) = insert_object base_json (some key) es

    pub insert_array : Map A → Key → Values A → Map A
    insert_array base_json base_key nil = base_json
    insert_array base_json base_key (cons v vs) =
        insert_array (insert_any base_json base_key v) base_key vs

    pub insert_object : Map A → Option Key → Entries A → Map A
    insert_object base_json base_key empty = base_json
    insert_object base_json base_key (entry key v es) =
        insert_object (insert_any base_json (new_key base_key key) v) base_key es

  unfoldable pub flatten : Entries A → Map A
  flatten json = insert_object [] none json

  -- No value of the map would have to be flattened again.
  abbrev pub IsFlat : Map A → Type 0
  IsFlat m = All (λ e. should_flatten_from_value e.1 ≡ false) m

  any_nested-push :
      (vs : Values A) (a : A) → any_nested vs ≡ false → any_nested (push vs (leaf a)) ≡ false
  unfolding push
  any_nested-push nil a h = refl
  any_nested-push (cons v vs) a h = ground (arith, any_nested-push vs a)

  join_value-flat :
      (v : Value A) (a : A)
      → should_flatten_from_value v ≡ false
      → should_flatten_from_value (join_value v (leaf a)) ≡ false
  unfolding should_flatten_from_value join_value
  join_value-flat (leaf b) a h = refl
  join_value-flat (array vs) a h = any_nested-push vs a h
  join_value-flat (object es) a h = cc

  insert_value-IsFlat :
      (m : Map A) (key : Key) (a : A) → IsFlat m → IsFlat (insert_value m key (leaf a))
  unfolding insert_value should_flatten_from_value
  insert_value-IsFlat [] key a h = (refl, tt)
  insert_value-IsFlat ((k, v) ∷ m) key a h = elim (Bool-cases (key_eq k key)) [
    | inl same ↦ rw same (join_value-flat v a h.0, h.1)
    | inr other ↦ rw other (h.0, insert_value-IsFlat m key a h.1)
  ]

  mutual
    unfolding insert_any insert_array insert_object

    insert_any-IsFlat :
        (m : Map A) (key : Key) (v : Value A) → IsFlat m → IsFlat (insert_any m key v)
    insert_any-IsFlat m key (leaf a) h = insert_value-IsFlat m key a h
    insert_any-IsFlat m key (array vs) h = insert_array-IsFlat m key vs h
    insert_any-IsFlat m key (object es) h = insert_object-IsFlat m (some key) es h

    insert_array-IsFlat :
        (m : Map A) (key : Key) (vs : Values A) → IsFlat m → IsFlat (insert_array m key vs)
    insert_array-IsFlat m key nil h = h
    insert_array-IsFlat m key (cons v vs) h =
        insert_array-IsFlat (insert_any m key v) key vs (insert_any-IsFlat m key v h)

    insert_object-IsFlat :
        (m : Map A) (key : Option Key) (es : Entries A) → IsFlat m → IsFlat (insert_object m key es)
    insert_object-IsFlat m key empty h = h
    insert_object-IsFlat m key (entry k v es) h =
        insert_object-IsFlat (insert_any m (new_key key k) v) key es
          (insert_any-IsFlat m (new_key key k) v h)

  -- A flattened object has no value that would have to be flattened.
  pub flatten-IsFlat : (json : Entries A) → IsFlat (flatten json)
  unfolding flatten
  flatten-IsFlat json = insert_object-IsFlat [] none json tt

  -- How many leaves a value has.
  mutual
    pub leaves : Value A → ℕ
    leaves (leaf a) = 1
    leaves (array vs) = leaves_of vs
    leaves (object es) = leaves_in es

    pub leaves_of : Values A → ℕ
    leaves_of nil = 0
    leaves_of (cons v vs) = leaves v + leaves_of vs

    pub leaves_in : Entries A → ℕ
    leaves_in empty = 0
    leaves_in (entry k v es) = leaves v + leaves_in es

  abbrev pub map_leaves : Map A → ℕ
  map_leaves [] = 0
  map_leaves ((k, v) ∷ m) = leaves v + map_leaves m

  leaves_of-push : (vs : Values A) (v : Value A) → leaves_of (push vs v) ≡ leaves_of vs + leaves v
  unfolding leaves push
  leaves_of-push nil v = omega arith
  leaves_of-push (cons w ws) v = omega (arith, leaves_of-push ws v)

  leaves-join_value : (v : Value A) (a : A) → leaves (join_value v (leaf a)) ≡ leaves v + 1
  unfolding leaves join_value
  leaves-join_value (leaf b) a = refl
  leaves-join_value (array vs) a = leaves_of-push vs (leaf a)
  leaves-join_value (object es) a = omega arith

  map_leaves-insert_value :
      (m : Map A) (key : Key) (a : A) → map_leaves (insert_value m key (leaf a)) ≡ map_leaves m + 1
  unfolding insert_value leaves
  map_leaves-insert_value [] key a = refl
  map_leaves-insert_value ((k, v) ∷ m) key a = elim (Bool-cases (key_eq k key)) [
    | inl same ↦ rw same (omega (arith, leaves-join_value v a))
    | inr other ↦ rw other (omega (arith, map_leaves-insert_value m key a))
  ]

  mutual
    unfolding insert_any insert_array insert_object leaves

    map_leaves-insert_any :
        (m : Map A) (key : Key) (v : Value A)
        → map_leaves (insert_any m key v) ≡ map_leaves m + leaves v
    map_leaves-insert_any m key (leaf a) = map_leaves-insert_value m key a
    map_leaves-insert_any m key (array vs) = map_leaves-insert_array m key vs
    map_leaves-insert_any m key (object es) = map_leaves-insert_object m (some key) es

    map_leaves-insert_array :
        (m : Map A) (key : Key) (vs : Values A)
        → map_leaves (insert_array m key vs) ≡ map_leaves m + leaves_of vs
    map_leaves-insert_array m key nil = omega arith
    map_leaves-insert_array m key (cons v vs) =
        omega (
          arith,
          map_leaves-insert_array (insert_any m key v) key vs,
          map_leaves-insert_any m key v,
        )

    map_leaves-insert_object :
        (m : Map A) (key : Option Key) (es : Entries A)
        → map_leaves (insert_object m key es) ≡ map_leaves m + leaves_in es
    map_leaves-insert_object m key empty = omega arith
    map_leaves-insert_object m key (entry k v es) = omega (
      arith,
      map_leaves-insert_object (insert_any m (new_key key k) v) key es,
      map_leaves-insert_any m (new_key key k) v,
    )

  -- Flattening loses no leaf and makes none.
  pub map_leaves-flatten : (json : Entries A) → map_leaves (flatten json) ≡ leaves_in json
  unfolding flatten
  map_leaves-flatten json = omega (arith, map_leaves-insert_object [] none json)
