-- ===== src/Json/Examples.antt =====
-- The tests and the flattening on a small document.
use milli.Base.{ℕ, [], ◌∷◌, ◌≡◌, refl}
use milli.Json.{Value, Entries, leaf, array, object, nil, cons, empty, entry}
use milli.Json.Depth.{
  Leaf, scalar, text, plain, escaped, write, should_flatten_from_unchecked_slice,
  should_flatten_from_value, should_flatten_from_unchecked_slice-write,
}
use milli.Json.Flatten.{IsFlat, flatten, flatten-IsFlat, map_leaves, leaves_in, map_leaves-flatten}

-- `["[\"",1]`
abbrev listed : Value Leaf
listed =
    array
      (cons (leaf (text (plain b'[' ∷ escaped b'"' ∷ []))) (cons (leaf (scalar (b'1' ∷ []))) nil))

should_flatten_from_unchecked_slice-write_example :
    should_flatten_from_unchecked_slice (write (λ k. k) listed [])
    ≡ should_flatten_from_value listed
should_flatten_from_unchecked_slice-write_example =
    should_flatten_from_unchecked_slice-write (λ k. k) listed ((refl, tt), ((refl, tt), tt))

-- `{"a": {"b": 1}, "c": [2, [3]]}`
abbrev document : Entries ℕ
document =
    entry (b'a' ∷ []) (object (entry (b'b' ∷ []) (leaf 1) empty))
      (entry (b'c' ∷ []) (array (cons (leaf 2) (cons (array (cons (leaf 3) nil)) nil))) empty)

flatten-IsFlat_example : IsFlat (flatten document)
flatten-IsFlat_example = flatten-IsFlat document

map_leaves-flatten_example : map_leaves (flatten document) ≡ leaves_in document
map_leaves-flatten_example = map_leaves-flatten document
