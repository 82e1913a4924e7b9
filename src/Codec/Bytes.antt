-- ===== src/Codec/Bytes.antt =====
-- 32 bit numbers as four bytes, in the order of the machine.
use milli.Base.{
  ℕ, ◌+◌, ◌*◌, ◌/◌, ◌%◌, ◌^◌, ◌<◌, Bool, true, false, List, [], ◌∷◌, ◌++◌, length, All, ◌≡◌, refl,
  arith, ap₂,
}

-- `u32::from_ne_bytes`, on a machine that is big endian or not.
abbrev pub from_ne_bytes : Bool → ℕ → ℕ → ℕ → ℕ → ℕ
from_ne_bytes false a b c d = a + b * 2 ^ 8 + c * 2 ^ 16 + d * 2 ^ 24
from_ne_bytes true a b c d = d + c * 2 ^ 8 + b * 2 ^ 16 + a * 2 ^ 24

-- `u32::to_ne_bytes` and `write_u32::<NativeEndian>`.
abbrev pub to_ne_bytes : Bool → ℕ → List ℕ
to_ne_bytes false n = n % 2 ^ 8 ∷ n / 2 ^ 8 % 2 ^ 8 ∷ n / 2 ^ 16 % 2 ^ 8 ∷ n / 2 ^ 24 % 2 ^ 8 ∷ []
to_ne_bytes true n = n / 2 ^ 24 % 2 ^ 8 ∷ n / 2 ^ 16 % 2 ^ 8 ∷ n / 2 ^ 8 % 2 ^ 8 ∷ n % 2 ^ 8 ∷ []

module _ (big : Bool) where
  -- `for integer in ... { write_u32(integer) }`.
  unfoldable pub write_all : List ℕ → List ℕ
  write_all [] = []
  write_all (n ∷ ns) = to_ne_bytes big n ++ write_all ns

  -- `while let Ok(integer) = bytes.read_u32()`: up to three bytes at the end are left.
  unfoldable pub read_all : List ℕ → List ℕ
  read_all (a ∷ b ∷ c ∷ d ∷ rest) = from_ne_bytes big a b c d ∷ read_all rest
  read_all _ = []

module _ where
  pub length-write_all : (big : Bool) (ns : List ℕ) → length (write_all big ns) ≡ 4 * length ns
  unfolding write_all
  length-write_all big [] = refl
  length-write_all false (n ∷ ns) = omega (arith, length-write_all false ns)
  length-write_all true (n ∷ ns) = omega (arith, length-write_all true ns)

  -- Numbers of 32 bits are read back as they were written.
  pub read_all-write_all :
      (big : Bool) (ns : List ℕ) → All (λ n. n < 2 ^ 32) ns → read_all big (write_all big ns) ≡ ns
  unfolding write_all read_all
  read_all-write_all big [] a = refl
  read_all-write_all false (n ∷ ns) a =
      ap₂ (λ m ms. m ∷ ms) (omega arith) (read_all-write_all false ns a.1)
  read_all-write_all true (n ∷ ns) a =
      ap₂ (λ m ms. m ∷ ms) (omega arith) (read_all-write_all true ns a.1)
