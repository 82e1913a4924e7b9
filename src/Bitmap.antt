-- ===== src/Bitmap.antt =====
-- The interface of the bitmap library that the index stores its sets of 32 bit ids with. The library
-- is not part of the repository: its operations are a parameter, and the laws are what its
-- documentation says and the code relies on.
pub mod Numbers
pub mod Sample
pub mod Laws
use milli.Base.{
  ℕ, ◌+◌, ◌*◌, ◌^◌, ◌≤◌, ◌<◌, Bool, true, false, not, ◌&&◌, ◌||◌, List, [], ◌∷◌, Option, none, some,
  length, All, ◌==◌, ltb, ◌≡◌,
}
use Numbers.{elem, IsSorted}

pub record Roaring : Type 1 where
  pub Bitmap : Type 0
  pub contains : Bitmap → ℕ → Bool
  -- `RoaringBitmap::new`, `insert`, `len`, `max`, and iteration.
  pub new : Bitmap
  pub insert : ℕ → Bitmap → Bitmap
  pub len : Bitmap → ℕ
  pub max_id : Bitmap → Option ℕ
  pub iter : Bitmap → List ℕ
  -- `a | b`, `a & b`, `a - b`, `from_iter(0..n)`, `from_sorted_iter` and `extend`.
  pub union : Bitmap → Bitmap → Bitmap
  pub intersection : Bitmap → Bitmap → Bitmap
  pub difference : Bitmap → Bitmap → Bitmap
  pub from_range : ℕ → Bitmap
  pub from_sorted_iter : List ℕ → Option Bitmap
  pub extend : Bitmap → List ℕ → Bitmap
  pub serialized_size : Bitmap → ℕ
  pub serialize : Bitmap → List ℕ
  pub deserialize : List ℕ → Option Bitmap

pub record IsRoaring (r : Roaring) : Type 0 where
  pub contains-new : (n : ℕ) → r.contains r.new n ≡ false
  pub contains-insert :
      (b : r.Bitmap) (m n : ℕ)
      → m < 2 ^ 32
      → r.contains (r.insert m b) n ≡ (n == m) || r.contains b n
  pub contains-iter : (b : r.Bitmap) (n : ℕ) → elem n (r.iter b) ≡ r.contains b n
  pub iter-IsSorted : (b : r.Bitmap) → IsSorted (r.iter b)
  pub iter-fits : (b : r.Bitmap) → All (λ n. n < 2 ^ 32) (r.iter b)
  pub len-iter : (b : r.Bitmap) → r.len b ≡ length (r.iter b)
  pub max_id-none : (b : r.Bitmap) → r.max_id b ≡ none → (n : ℕ) → r.contains b n ≡ false
  pub max_id-some :
      (b : r.Bitmap) (m : ℕ)
      → r.max_id b ≡ some m
      → (m < 2 ^ 32) × (r.contains b m ≡ true) × ((n : ℕ) → m < n → r.contains b n ≡ false)
  pub contains-union :
      (a b : r.Bitmap) (n : ℕ) → r.contains (r.union a b) n ≡ r.contains a n || r.contains b n
  pub contains-intersection :
      (a b : r.Bitmap) (n : ℕ)
      → r.contains (r.intersection a b) n ≡ r.contains a n && r.contains b n
  pub contains-difference :
      (a b : r.Bitmap) (n : ℕ)
      → r.contains (r.difference a b) n ≡ r.contains a n && not (r.contains b n)
  pub contains-from_range : (m n : ℕ) → m < 2 ^ 32 → r.contains (r.from_range m) n ≡ ltb n m
  pub contains-from_sorted_iter :
      (ns : List ℕ)
      → IsSorted ns
      → All (λ n. n < 2 ^ 32) ns
      → (b : r.Bitmap) × (r.from_sorted_iter ns ≡ some b) × ((n : ℕ) → r.contains b n ≡ elem n ns)
  pub contains-extend :
      (b : r.Bitmap) (ns : List ℕ)
      → All (λ n. n < 2 ^ 32) ns
      → (n : ℕ) → r.contains (r.extend b ns) n ≡ r.contains b n || elem n ns
  pub deserialize-serialize : (b : r.Bitmap) → r.deserialize (r.serialize b) ≡ some b
  pub length-serialize : (b : r.Bitmap) → length (r.serialize b) ≡ r.serialized_size b
  -- A serialized bitmap of eight or more numbers is longer than seven numbers of four bytes.
  pub serialize_long : (b : r.Bitmap) → 7 < r.len b → 28 < length (r.serialize b)
