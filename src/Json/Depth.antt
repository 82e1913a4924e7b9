-- ===== src/Json/Depth.antt =====
-- `should_flatten_from_unchecked_slice` and `should_flatten_from_value` (json-depth-checker/src/
-- lib.rs), compared over the bytes that the serializer writes.
use milli.Base.{
  ℕ, Bool, true, false, not, ◌&&◌, ◌||◌, List, [], ◌∷◌, ◌++◌, ◌==◌, if◌then◌else◌, ◌≡◌, refl, ap,
  ◌∙◌, arith,
}
use milli.Json.{Value, Values, Entries, leaf, array, object, nil, cons, empty, entry}

-- The loop over the bytes, with `skip_next` and `in_string`.
unfoldable pub scan : Bool → Bool → List ℕ → Bool
scan skip_next in_string [] = false
scan true in_string (byte ∷ rest) = scan false in_string rest
scan false in_string (byte ∷ rest) =
    let skip = scan true in_string rest in
    let inside = scan false true rest in
    let outside = scan false false rest in
    if byte == b'\\'
    then skip
    else if in_string
    then (if byte == b'"' then outside else inside)
    else if byte == b'"'
    then inside
    else if byte == b'['
    then true
    else if byte == b'{'
    then true
    else outside

unfoldable pub should_flatten_from_unchecked_slice : List ℕ → Bool
unfolding scan
should_flatten_from_unchecked_slice [] = false
should_flatten_from_unchecked_slice (first ∷ rest) =
    if first == b'{' then true else if first == b'[' then scan false false rest else false

module _ {A : Type 0} where
  -- `value.is_array() || value.is_object()`.
  abbrev pub is_nested : Value A → Bool
  is_nested (leaf a) = false
  is_nested (array vs) = true
  is_nested (object es) = true

  abbrev pub any_nested : Values A → Bool
  any_nested nil = false
  any_nested (cons v vs) = is_nested v || any_nested vs

  unfoldable pub should_flatten_from_value : Value A → Bool
  should_flatten_from_value (leaf a) = false
  should_flatten_from_value (array vs) = any_nested vs
  should_flatten_from_value (object es) = true

-- What the serializer writes for a leaf: a number, `true`, `false` or `null`, or a text between
-- quotes, in which a backslash stands before each byte that is escaped.
pub data Item : Type 0 where
  plain : ℕ → Item
  escaped : ℕ → Item

pub data Leaf : Type 0 where
  scalar : List ℕ → Leaf
  text : List Item → Leaf

abbrev pub is_scalar_byte : ℕ → Bool
is_scalar_byte byte =
    not (byte == b'\\') && not (byte == b'"') && not (byte == b'[') && not (byte == b'{')

-- The bytes of a scalar are none of the four that matter, and quotes and backslashes of a text are
-- escaped.
abbrev pub IsScalar : List ℕ → Type 0
IsScalar [] = Unit
IsScalar (byte ∷ rest) = (is_scalar_byte byte ≡ true) × IsScalar rest

abbrev pub IsText : List Item → Type 0
IsText [] = Unit
IsText (plain byte ∷ items) = ((not (byte == b'\\') && not (byte == b'"')) ≡ true) × IsText items
IsText (escaped byte ∷ items) = IsText items

abbrev pub IsWritable : Value Leaf → Type 0
IsWritable (leaf (scalar bytes)) = IsScalar bytes
IsWritable (leaf (text items)) = IsText items
IsWritable (array vs) = Unit
IsWritable (object es) = Unit

abbrev pub AreWritable : Values Leaf → Type 0
AreWritable nil = Unit
AreWritable (cons v vs) = IsWritable v × AreWritable vs

abbrev pub HasWritable : Value Leaf → Type 0
HasWritable (leaf a) = IsWritable (leaf a)
HasWritable (array vs) = AreWritable vs
HasWritable (object es) = Unit

unfoldable pub write_text : List Item → List ℕ → List ℕ
write_text [] rest = b'"' ∷ rest
write_text (plain byte ∷ items) rest = byte ∷ write_text items rest
write_text (escaped byte ∷ items) rest = b'\\' ∷ byte ∷ write_text items rest

-- The compact form of a value in front of the bytes `rest`; `key` writes the key of an entry.
module _ (key : List ℕ → List ℕ) where
  unfoldable mutual
    pub write : Value Leaf → List ℕ → List ℕ
    write (leaf (scalar bytes)) rest = bytes ++ rest
    write (leaf (text items)) rest = b'"' ∷ write_text items rest
    write (array nil) rest = b'[' ∷ b']' ∷ rest
    write (array (cons v vs)) rest = b'[' ∷ write v (write_values vs (b']' ∷ rest))
    write (object es) rest = b'{' ∷ write_entries es (b'}' ∷ rest)

    pub write_values : Values Leaf → List ℕ → List ℕ
    write_values nil rest = rest
    write_values (cons v vs) rest = b',' ∷ write v (write_values vs rest)

    pub write_entries : Entries Leaf → List ℕ → List ℕ
    write_entries empty rest = rest
    write_entries (entry k v es) rest = key k ++ b':' ∷ write v (write_entries es rest)

scan-write_text :
    (items : List Item) (rest : List ℕ)
    → IsText items
    → scan false true (write_text items rest) ≡ scan false false rest
unfolding scan write_text
scan-write_text [] rest h = refl
scan-write_text (plain byte ∷ items) rest h = ground (arith, scan-write_text items rest h.1)
scan-write_text (escaped byte ∷ items) rest h = scan-write_text items rest h

scan-scalar :
    (bytes rest : List ℕ)
    → IsScalar bytes
    → scan false false (bytes ++ rest) ≡ scan false false rest
unfolding scan
scan-scalar [] rest h = refl
scan-scalar (byte ∷ bytes) rest h = ground (arith, scan-scalar bytes rest h.1)

module _ (key : List ℕ → List ℕ) where
  scan-write :
      (v : Value Leaf) (rest : List ℕ)
      → IsWritable v
      → scan false false (write key v rest) ≡ is_nested v || scan false false rest
  unfolding scan write
  scan-write (leaf (scalar bytes)) rest h = scan-scalar bytes rest h
  scan-write (leaf (text items)) rest h = scan-write_text items rest h
  scan-write (array nil) rest h = refl
  scan-write (array (cons v vs)) rest h = refl
  scan-write (object es) rest h = refl

  scan-write_values :
      (vs : Values Leaf)
      → AreWritable vs
      → scan false false (write_values key vs (b']' ∷ [])) ≡ any_nested vs
  unfolding scan write
  scan-write_values nil h = refl
  scan-write_values (cons v vs) h =
      scan-write v (write_values key vs (b']' ∷ [])) h.0
      ∙ ap (λ b. is_nested v || b) (scan-write_values vs h.1)

  scalar_start :
      (bytes : List ℕ) → IsScalar bytes → should_flatten_from_unchecked_slice (bytes ++ []) ≡ false
  unfolding should_flatten_from_unchecked_slice
  scalar_start [] h = refl
  scalar_start (byte ∷ bytes) h = ground arith

  -- On the bytes of a value in compact form the fast test, which only looks for brackets outside of
  -- texts, says the same as the test on the value itself.
  pub should_flatten_from_unchecked_slice-write :
      (v : Value Leaf)
      → HasWritable v
      → should_flatten_from_unchecked_slice (write key v []) ≡ should_flatten_from_value v
  unfolding should_flatten_from_unchecked_slice should_flatten_from_value write scan
  should_flatten_from_unchecked_slice-write (leaf (scalar bytes)) h = scalar_start bytes h
  should_flatten_from_unchecked_slice-write (leaf (text items)) h = refl
  should_flatten_from_unchecked_slice-write (array nil) h = refl
  should_flatten_from_unchecked_slice-write (array (cons v vs)) h =
      scan-write v (write_values key vs (b']' ∷ [])) h.0
      ∙ ap (λ b. is_nested v || b) (scan-write_values vs h.1)
  should_flatten_from_unchecked_slice-write (object es) h = refl
