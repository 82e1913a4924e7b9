-- ===== src/Codec/Words.antt =====
-- Keys of a word and a number, big endian (milli/src/heed_codec/str_beu32_codec.rs), and the slice
-- helper `try_split_at` (milli/src/lib.rs). Strings are their bytes; `is_utf8` is the test of
-- `str::from_utf8`.
use milli.Base.{
  ℕ, ◌-◌, Bool, true, List, [], ◌∷◌, ◌++◌, Option, none, some, ◌==◌, length, take, drop, ltb, leb,
  if◌then◌else◌,
}
use milli.Codec.Bytes.{to_ne_bytes, from_ne_bytes}

unfoldable pub try_split_at : {A : Type 0} → List A → ℕ → Option (List A × List A)
try_split_at slice mid =
    if leb mid (length slice) then some (take mid slice, drop mid slice) else none

-- `head.try_into().ok()?` asks for exactly `n` elements.
unfoldable pub try_split_array_at : {A : Type 0} → ℕ → List A → Option (List A × List A)
unfolding try_split_at
try_split_array_at n slice = elim (try_split_at slice n) [
  | none ↦ none
  | some (head, tail) ↦ if length head == n then some (head, tail) else none
]

-- `<[u8; 4]>::try_from` and `u32::from_be_bytes`.
unfoldable pub from_be_bytes : List ℕ → Option ℕ
from_be_bytes (a ∷ b ∷ c ∷ d ∷ []) = some (from_ne_bytes true a b c d)
from_be_bytes _ = none

abbrev map_pair : List ℕ → Option ℕ → Option (List ℕ × ℕ)
map_pair word none = none
map_pair word (some pos) = some (word, pos)

module _ (is_utf8 : List ℕ → Bool) where
  unfoldable pub str_beu32_decode : List ℕ → Option (List ℕ × ℕ)
  unfolding from_be_bytes
  str_beu32_decode bytes =
      if ltb (length bytes) 4
      then none
      else (let word = take (length bytes - 4) bytes in
          if is_utf8 word
          then map_pair word (from_be_bytes (drop (length bytes - 4) bytes))
          else none)

unfoldable pub str_beu32_encode : List ℕ × ℕ → Option (List ℕ)
str_beu32_encode (word, pos) = some (word ++ to_ne_bytes true pos)
